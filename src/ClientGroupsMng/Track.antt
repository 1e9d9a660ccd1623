-- ===== src/ClientGroupsMng/Track.antt =====
-- What client/client_groups_mng.c keeps: a list of entries with different names.
use chat_project.Prelude.{
  ◌≡◌, ◌⊎◌, inl, inr, refl, Bool, true, false, Option, some, List, [], ◌∷◌, ◌++◌, ap, ap₂, ◌||◌,
  ◌&&◌, not, arith, Bool-cases,
}
use chat_project.Memory.{Bytes}
use chat_project.HashUtils.{str_eq}
use chat_project.DList.{Ptr, Heap}
use chat_project.DList.Represents.{IsList, contents}
use chat_project.ClientGroupsMng.{GroupEntry}
use chat_project.ClientGroupsMng.Find.{first_named}

abbrev pub all_some : List GroupEntry → List (Option GroupEntry)
all_some [] = []
all_some (e ∷ es) = some e ∷ all_some es

-- Whether an entry has the name.
abbrev pub has_name : List GroupEntry → Bytes → Bool
has_name [] name = false
has_name (e ∷ es) name = str_eq e.name name || has_name es name

-- No entry has the name of one behind it.
abbrev pub names_apart : List GroupEntry → Bool
names_apart [] = true
names_apart (e ∷ es) = not (has_name es e.name) && names_apart es

-- The list at `l` has the nodes `ps` with the entries `es`, whose names are different.
pub record Tracks (h : Heap GroupEntry) (l : Ptr) (ps : List Ptr) (es : List GroupEntry)
    : Type 0 where
  pub list : IsList h l ps
  pub entries : contents h.item ps ≡ all_some es
  pub apart : names_apart es ≡ true

pub all_some-append : (es fs : List GroupEntry) → all_some (es ++ fs) ≡ all_some es ++ all_some fs
all_some-append [] fs = refl
all_some-append (e ∷ es) fs = ap (λ t. some e ∷ t) (all_some-append es fs)

pub has_name-append :
    (es fs : List GroupEntry) (name : Bytes)
    → has_name (es ++ fs) name ≡ (has_name es name || has_name fs name)
has_name-append [] fs name = refl
has_name-append (e ∷ es) fs name = ground (arith, has_name-append es fs name)

-- Where the search ends: at the first entry with the name, which splits the list.
pub record Found (item : Ptr → Option GroupEntry) (ps : List Ptr) (es : List GroupEntry)
    (name : Bytes) (last : Ptr) : Type 0 where
  pub front : List Ptr
  pub node : Ptr
  pub back : List Ptr
  pub front_es : List GroupEntry
  pub entry : GroupEntry
  pub back_es : List GroupEntry
  pub nodes : ps ≡ front ++ node ∷ back
  pub entries : es ≡ front_es ++ entry ∷ back_es
  pub named : str_eq entry.name name ≡ true
  pub first : has_name front_es name ≡ false
  pub stops : first_named item ps name last ≡ node
  pub front_items : contents item front ≡ all_some front_es
  pub node_item : item node ≡ some entry
  pub back_items : contents item back ≡ all_some back_es

abbrev found_here :
    {item : Ptr → Option GroupEntry} {last : Ptr} (p : Ptr) (ps : List Ptr) (e : GroupEntry)
    (es : List GroupEntry) (name : Bytes)
    → item p ≡ some e
    → contents item ps ≡ all_some es
    → str_eq e.name name ≡ true
    → Found item (p ∷ ps) (e ∷ es) name last
found_here p ps e es name here rest hit = record {
  front = [];
  node = p;
  back = ps;
  front_es = [];
  entry = e;
  back_es = es;
  nodes = refl;
  entries = refl;
  named = hit;
  first = refl;
  stops = rw (here, hit);
  front_items = refl;
  node_item = here;
  back_items = rest;
}

found_later :
    {item : Ptr → Option GroupEntry} {last : Ptr} (p : Ptr) (ps : List Ptr) (e : GroupEntry)
    (es : List GroupEntry) (name : Bytes)
    → item p ≡ some e
    → str_eq e.name name ≡ false
    → Found item ps es name last
    → Found item (p ∷ ps) (e ∷ es) name last
found_later p ps e es name here miss f = record {
  front = p ∷ f.front;
  node = f.node;
  back = f.back;
  front_es = e ∷ f.front_es;
  entry = f.entry;
  back_es = f.back_es;
  nodes = ap (λ t. p ∷ t) f.nodes;
  entries = ap (λ t. e ∷ t) f.entries;
  named = f.named;
  first = rw (miss, f.first);
  stops = rw (here, miss) f.stops;
  front_items = ap₂ ◌∷◌ here f.front_items;
  node_item = f.node_item;
  back_items = f.back_items;
}

pub search :
    (item : Ptr → Option GroupEntry) (ps : List Ptr) (es : List GroupEntry) (name : Bytes)
    (last : Ptr)
    → contents item ps ≡ all_some es
    → ((has_name es name ≡ false) × (first_named item ps name last ≡ last))
      ⊎ Found item ps es name last
search item [] [] name last e = inl (refl, refl)
search item [] (f ∷ es) name last e = absurd cc
search item (p ∷ ps) [] name last e = absurd cc
search item (p ∷ ps) (f ∷ es) name last e =
    let here : item p ≡ some f = cc in
    let rest : contents item ps ≡ all_some es = cc in
    elim (Bool-cases (str_eq f.name name)) [
      | inl hit ↦ inr (found_here p ps f es name here rest hit)
      | inr miss ↦ elim (search item ps es name last rest) [
        | inl (out, stops) ↦ inl (rw (miss, out), rw (here, miss) stops)
        | inr later ↦ inr (found_later p ps f es name here miss later)
      ]
    ]
