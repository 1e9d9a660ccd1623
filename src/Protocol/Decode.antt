-- ===== src/Protocol/Decode.antt =====
-- The decoders of shared/protocol.c on any input: which bytes they read, and what they store.
use chat_project.Prelude.{
  ℕ, ◌+◌, ◌*◌, ◌%◌, ◌≤◌, ◌≡◌, some, [], ◌∷◌, ◌++◌, ltb, leb, length, ◌&&◌, ◌||◌, not, arith, take,
  drop, length-drop, length-append, length-take, ◌==◌,
}
use chat_project.Memory.{Bytes, ok, load, copy_out}
use chat_project.Memory.Reads.{
  guard-eq-ok, >>=-eq-ok, Agrees, Agrees-ok, >>=-Agrees, guard-Agrees, if-Agrees, load-Agrees,
  copy_out-Agrees,
}
use chat_project.Protocol.{
  ChatStatus, is_ok, status_of_byte, read_field, decode_address, chat_peek_header,
  chat_decode_user_pass, chat_decode_status_rep, chat_decode_groupname, chat_decode_group_rep_ok,
  chat_max_username_len, chat_max_password_len, chat_max_groupname_len,
}

module _ (buf : Bytes) (n : ℕ) (fits : n ≤ length buf) where
  read_field-Agrees :
      (max_len pos : ℕ)
      → Agrees (read_field (take n buf) n max_len pos) (read_field buf n max_len pos)
  unfolding read_field
  read_field-Agrees max_len pos = guard-Agrees (ltb pos n) _ _ λ inside.
      >>=-Agrees _ _ _ _ (load-Agrees buf n fits pos (ground arith)) λ flen _.
        guard-Agrees (leb flen max_len && leb (pos + 1 + flen) n) _ _ λ small.
          >>=-Agrees _ _ _ _ (copy_out-Agrees buf n fits (pos + 1) flen (ground arith))
            λ chars _. Agrees-ok (chars ++ 0 ∷ [], pos + 1 + flen)

  -- `chat_peek_header` reads only the first `buf_len` bytes of the buffer.
  pub chat_peek_header-Agrees :
      Agrees (chat_peek_header (some (take n buf)) n) (chat_peek_header (some buf) n)
  unfolding chat_peek_header
  chat_peek_header-Agrees = guard-Agrees (leb 2 n) _ _ λ two.
      >>=-Agrees _ _ _ _ (load-Agrees buf n fits 0 (ground arith))
        λ t _. >>=-Agrees _ _ _ _ (load-Agrees buf n fits 1 (ground arith)) λ l _. Agrees-ok (t, l)

  -- `chat_decode_user_pass` reads only the first `buf_len` bytes of a buffer that has them, and stays
  -- inside the buffer.
  pub chat_decode_user_pass-Agrees :
      Agrees (chat_decode_user_pass (some (take n buf)) n) (chat_decode_user_pass (some buf) n)
  unfolding chat_decode_user_pass
  chat_decode_user_pass-Agrees = guard-Agrees (leb 2 n) _ _ λ two.
      >>=-Agrees _ _ _ _ (load-Agrees buf n fits 1 (ground arith)) λ payload _.
        guard-Agrees (leb (2 + payload) n) _ _ λ whole.
          >>=-Agrees _ _ _ _ (read_field-Agrees 32 2)
            λ u _. >>=-Agrees _ _ _ _ (read_field-Agrees 32 u.1) λ p _. Agrees-ok (u.0, p.0)

  -- `chat_decode_status_rep` reads only the first `buf_len` bytes of the buffer.
  pub chat_decode_status_rep-Agrees :
      Agrees (chat_decode_status_rep (some (take n buf)) n) (chat_decode_status_rep (some buf) n)
  unfolding chat_decode_status_rep
  chat_decode_status_rep-Agrees = guard-Agrees (leb 3 n) _ _ λ three.
      >>=-Agrees _ _ _ _ (load-Agrees buf n fits 1 (ground arith)) λ payload _.
        guard-Agrees (payload == 1) _ _ λ one.
          >>=-Agrees _ _ _ _ (load-Agrees buf n fits 2 (ground arith))
            λ code _. Agrees-ok (status_of_byte code)

  -- `chat_decode_groupname` reads only the first `buf_len` bytes of the buffer.
  pub chat_decode_groupname-Agrees :
      Agrees (chat_decode_groupname (some (take n buf)) n) (chat_decode_groupname (some buf) n)
  unfolding chat_decode_groupname
  chat_decode_groupname-Agrees = guard-Agrees (leb 2 n) _ _ λ two.
      >>=-Agrees _ _ _ _ (load-Agrees buf n fits 1 (ground arith)) λ payload _.
        guard-Agrees (leb (2 + payload) n) _ _ λ whole.
          guard-Agrees (leb 1 payload) _ _ λ some_byte.
            >>=-Agrees _ _ _ _ (load-Agrees buf n fits 2 (ground arith)) λ glen _.
              guard-Agrees (leb glen 32 && leb (3 + glen) n) _ _ λ small.
                >>=-Agrees _ _ _ _ (copy_out-Agrees buf n fits 3 glen (ground arith))
                  λ chars _. Agrees-ok (chars ++ 0 ∷ [])

  decode_address-Agrees :
      (status : ChatStatus)
      → Agrees (decode_address (take n buf) n status) (decode_address buf n status)
  unfolding decode_address
  decode_address-Agrees status = >>=-Agrees _ _ _ _ (read_field-Agrees 15 3) λ r _.
      guard-Agrees (ltb r.1 n) _ _ λ inside.
        >>=-Agrees _ _ _ _ (load-Agrees buf n fits r.1 (ground arith)) λ portlen _.
          guard-Agrees (portlen == 2 && leb (r.1 + 1 + 2) n) _ _ λ port_fits.
            >>=-Agrees _ _ _ _ (load-Agrees buf n fits (r.1 + 1) (ground arith)) λ hi _.
              >>=-Agrees _ _ _ _ (load-Agrees buf n fits (r.1 + 1 + 1) (ground arith)) λ lo _.
                Agrees-ok
                  (record { status = status; mcast_ip = r.0; mcast_port = (hi * 256 + lo) % 65536 })

  -- `chat_decode_group_rep_ok` reads only the first `buf_len` bytes of a buffer that has them, and
  -- stays inside the buffer.
  pub chat_decode_group_rep_ok-Agrees :
      Agrees
        (chat_decode_group_rep_ok (some (take n buf)) n)
        (chat_decode_group_rep_ok (some buf) n)
  unfolding chat_decode_group_rep_ok
  chat_decode_group_rep_ok-Agrees = guard-Agrees (leb 3 n) _ _ λ three.
      >>=-Agrees _ _ _ _ (load-Agrees buf n fits 1 (ground arith)) λ payload _.
        guard-Agrees (leb (2 + payload) n && leb 1 payload) _ _ λ whole.
          >>=-Agrees _ _ _ _ (load-Agrees buf n fits 2 (ground arith)) λ code _.
            if-Agrees (not (is_ok (status_of_byte code)) || payload == 1) _ _ _ (Agrees-ok _)
              (decode_address-Agrees (status_of_byte code))

pub copy_out-length :
    (buf : Bytes) (i k : ℕ) {cs : Bytes} → copy_out buf i k ≡ ok cs → length cs ≡ k
unfolding copy_out
copy_out-length buf i k h = ground (arith, length-take k (drop i buf), length-drop i buf)

-- What a field read stores fits an array of `max_len + 1`, and the position stays in the buffer.
pub read_field-fits :
    (buf : Bytes) (n max_len pos : ℕ) {r : Bytes × ℕ}
    → read_field buf n max_len pos ≡ ok r
    → (length r.0 ≤ max_len + 1) × (r.1 ≤ n)
unfolding read_field
read_field-fits buf n max_len pos h =
    let (inside, h1) = guard-eq-ok (ltb pos n) _ h in
    let (flen, got, h2) = >>=-eq-ok (load buf pos) _ h1 in
    let (small, h3) = guard-eq-ok (leb flen max_len && leb (pos + 1 + flen) n) _ h2 in
    let (chars, read, h4) = >>=-eq-ok (copy_out buf (pos + 1) flen) _ h3 in
    ground (arith, length-append chars (0 ∷ []), copy_out-length buf (pos + 1) flen read)

-- If the decoding succeeds, the user name and the password that are stored fit arrays of 33 bytes.
pub chat_decode_user_pass-fits :
    (buf : Bytes) (n : ℕ) {r : Bytes × Bytes}
    → chat_decode_user_pass (some buf) n ≡ ok r
    → (length r.0 ≤ chat_max_username_len + 1) × (length r.1 ≤ chat_max_password_len + 1)
unfolding chat_decode_user_pass
chat_decode_user_pass-fits buf n h =
    let (_, h1) = guard-eq-ok (leb 2 n) _ h in
    let (payload, _, h2) = >>=-eq-ok (load buf 1) _ h1 in
    let (_, h3) = guard-eq-ok (leb (2 + payload) n) _ h2 in
    let (u, got_u, h4) = >>=-eq-ok (read_field buf n 32 2) _ h3 in
    let (p, got_p, h5) = >>=-eq-ok (read_field buf n 32 u.1) _ h4 in
    ground (arith, read_field-fits buf n 32 2 got_u, read_field-fits buf n 32 u.1 got_p)

-- The group name that is stored fits an array of 33 bytes.
pub chat_decode_groupname-fits :
    (buf : Bytes) (n : ℕ) {r : Bytes}
    → chat_decode_groupname (some buf) n ≡ ok r
    → length r ≤ chat_max_groupname_len + 1
unfolding chat_decode_groupname
chat_decode_groupname-fits buf n h =
    let (_, h1) = guard-eq-ok (leb 2 n) _ h in
    let (payload, _, h2) = >>=-eq-ok (load buf 1) _ h1 in
    let (_, h3) = guard-eq-ok (leb (2 + payload) n) _ h2 in
    let (_, h4) = guard-eq-ok (leb 1 payload) _ h3 in
    let (glen, _, h5) = >>=-eq-ok (load buf 2) _ h4 in
    let (small, h6) = guard-eq-ok (leb glen 32 && leb (3 + glen) n) _ h5 in
    let (chars, read, h7) = >>=-eq-ok (copy_out buf 3 glen) _ h6 in
    ground (arith, length-append chars (0 ∷ []), copy_out-length buf 3 glen read)
