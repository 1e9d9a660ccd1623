-- ===== src/Session/Joined.antt =====
-- The requests for a group of client/client_mng.c keep a client in order, and so do all operations that
-- the screens call.
use mathlib.Core.Path.{subst}
use chat_project.Prelude.{
  ℕ, suc, ◌≤◌, ◌≡◌, refl, sym, ◌∙◌, Bool, true, false, not, Option, none, some, [], ◌∷◌, ◌++◌,
  length, length-append, leb, ◌==◌, ◌&&◌, arith, Bool-cases, inl, inr,
}
use chat_project.Memory.{Bytes, reject, c_str}
use chat_project.Protocol.{
  ChatStatus, ChatOpcode, GroupRep, is_ok, chat_max_groupname_len, chat_encode_groupname_req,
  chat_decode_group_rep_ok,
}
use chat_project.Protocol.Encode.{chat_encode_groupname_req-frame}
use chat_project.Protocol.Decode.{chat_decode_group_rep_ok-Agrees}
use chat_project.DList.{Ptr, Heap, null, return}
use chat_project.DList.Link.{bind_run}
use chat_project.ClientGroupsMng.{GroupEntry, Answers, on_join, new_entry}
use chat_project.ClientGroupsMng.Track.{has_name}
use chat_project.ClientGroupsMng.Join.{on_join-Joins, Grown, granted}
use chat_project.ClientMng.{
  Client, msg_buf, on_ok, exchange, with_windows, GroupAnswer, do_group_join, open_group,
  client_mng_create_group, client_mng_join_group,
}
use chat_project.Session.Requests.{
  InOrder, IsInOrder, more-InOrder, Runs, on_ok-Runs, exchange-Runs,
}
use chat_project.Session.Kept.{groupname-Encoded}

-- malloc gives NULL or an address without a node.
abbrev pub Unused : Answers → Heap GroupEntry → Type 0
Unused answers h = (answers.node == null) ≡ false → h.alive answers.node ≡ false

Grown-InOrder :
    (opened : Bool) (asked : ℕ) (c : Client) (h' : Heap GroupEntry) (node : Ptr) (e : GroupEntry)
    (o : IsInOrder c asked)
    → Grown opened c.heap h' c.mng.groups.groups o.nodes o.entries node e
    → InOrder h' c.mng.groups c.incoming c.outgoing (suc asked)
Grown-InOrder true asked c h' node e o grown = record {
  nodes = o.nodes ++ node ∷ [];
  entries = o.entries ++ e ∷ [];
  tracks = grown;
  bound = omega (arith, o.bound, length-append o.nodes (node ∷ []));
  bytes = o.bytes;
  quiet = o.quiet;
}
Grown-InOrder false asked c h' node e o grown =
    subst (λ h. InOrder h c.mng.groups c.incoming c.outgoing (suc asked)) (sym grown)
      (more-InOrder asked (suc asked) (omega arith) o)

open_group-Runs :
    (asked : ℕ) (answers : Answers) (group : Bytes) (rep : GroupRep) (c : Client)
    → Unused answers c.heap
    → length group ≤ chat_max_groupname_len
    → IsInOrder c asked
    → Runs (suc asked) (open_group (suc asked) answers group rep c)
unfolding open_group with_windows
open_group-Runs asked answers group rep c unused short o = elim (Bool-cases (is_ok rep.status)) [
  | inr bad ↦ rw bad (_, refl, more-InOrder asked (suc asked) (omega arith) o)
  | inl good ↦
      let ip = c_str rep.mcast_ip in
      let opened = not (has_name o.entries group) && granted answers in
      let (h', run, grown) =
        on_join-Joins c.heap c.mng.groups o.nodes o.entries o.tracks group ip rep.mcast_port answers
          unused short (suc asked) (some c.mng.username) (omega (arith, o.bound)) in
      let whole =
        bind_run
          (on_join (suc asked) (some c.mng.groups) (some group) (some ip) rep.mcast_port
            (some c.mng.username) answers)
          (λ t. return t.1) run refl in
      rw (good, whole)
        (_, refl, Grown-InOrder opened asked c h' answers.node (new_entry group answers) o grown)
]

do_group_join-Runs :
    (asked : ℕ) (c : Client) (op : ChatOpcode) (group : Bytes)
    (next : GroupRep → Client → Option (GroupAnswer × Client))
    → IsInOrder c asked
    → (length group ≤ chat_max_groupname_len
        → (rep : GroupRep) (c1 : Client) → c1.heap ≡ c.heap
        → IsInOrder c1 asked
        → Runs (suc asked) (next rep c1))
    → Runs (suc asked) (do_group_join c op group next)
unfolding do_group_join exchange on_ok
do_group_join-Runs asked c op group next o goes =
    let encoded = chat_encode_groupname_req-frame msg_buf op group (omega arith) in
    elim (Bool-cases (leb (length group) chat_max_groupname_len)) [
      | inr long ↦
          let rejected : chat_encode_groupname_req (some msg_buf) op (some group) ≡ reject =
            encoded ∙ rw long in
          rw (rejected, do_group_join) (_, refl, more-InOrder asked (suc asked) (omega arith) o)
      | inl fits ↦
          exchange-Runs asked (suc asked) (omega arith) (ChatStatus.protocol, none)
            (chat_encode_groupname_req (some msg_buf) op (some group)) c _
            (groupname-Encoded op group) o
            λ t c1 inside same o1.
              on_ok-Runs (suc asked) (ChatStatus.protocol, none)
                (chat_decode_group_rep_ok (some t.1) t.0) c1 _
                (chat_decode_group_rep_ok-Agrees t.1 t.0 inside).1
                (more-InOrder asked (suc asked) (omega arith) o1)
                (λ rep done. goes (ground (arith, fits)) rep c1 same o1)
    ]

module _ (asked : ℕ) (answers : Answers) (c : Client) (group : Bytes) (o : IsInOrder c asked)
    (unused : Unused answers c.heap) where
  opens :
      length group ≤ chat_max_groupname_len
      → (rep : GroupRep) (c1 : Client) → c1.heap ≡ c.heap
      → IsInOrder c1 asked
      → Runs (suc asked) (open_group (suc asked) answers group rep c1)
  opens short rep c1 same o1 =
      open_group-Runs asked answers group rep c1 (subst (Unused answers) (sym same) unused) short o1

  pub client_mng_create_group-Runs :
      Runs (suc asked) (client_mng_create_group (suc asked) answers c (some group))
  unfolding client_mng_create_group
  client_mng_create_group-Runs =
      do_group_join-Runs asked c ChatOpcode.create_group_req group _ o opens

  pub client_mng_join_group-Runs :
      Runs (suc asked) (client_mng_join_group (suc asked) answers c (some group))
  unfolding client_mng_join_group
  client_mng_join_group-Runs = do_group_join-Runs asked c ChatOpcode.join_group_req group _ o opens
