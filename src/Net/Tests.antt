-- ===== src/Net/Tests.antt =====
-- The transport of server/server_net.c with a callback that collects the messages.
use chat_project.Prelude.{
  ◌≡◌, refl, sym, false, none, some, List, [], ◌∷◌, ◌++◌, arith, take, replicate, take-take,
}
use mathlib.Core.Path.{ap}
use chat_project.Memory.{Bytes}
use chat_project.Net.{ClientState, FdSet, OnMessageFn}
use chat_project.Net.Process.{IsLocal}
use chat_project.Net.Stream.{
  IsWaiting, AreChunks, AreBytes, Received, receive_all, receive_all-Received,
}

abbrev collect : OnMessageFn (List Bytes)
collect fd buf n seen = seen ++ take n buf ∷ []

collect-IsLocal : IsLocal collect
collect-IsLocal fd buf n seen fits =
    ap (λ t. seen ++ t ∷ []) (sym (take-take n n buf (omega arith)))

abbrev nothing_watched : FdSet
nothing_watched fd = false

-- One byte of a header has arrived.
abbrev waiting_client : ClientState
waiting_client = record { fd = some 5; buffer = 5 ∷ replicate 770 0; len = 1 }

waiting_client-IsWaiting : IsWaiting waiting_client
waiting_client-IsWaiting = record {
  sized = refl;
  in_buffer = omega arith;
  incomplete = tt;
  bytes = (omega arith, tt);
}

-- The end of the header, and a message with one byte of payload.
abbrev rest_of_two : Bytes
rest_of_two = 0 ∷ 9 ∷ 1 ∷ 65 ∷ []

rest_of_two-AreBytes : AreBytes rest_of_two
rest_of_two-AreBytes = (omega arith, (omega arith, (omega arith, (omega arith, tt))))

abbrev in_two : List Bytes
in_two = (0 ∷ 9 ∷ []) ∷ (1 ∷ 65 ∷ []) ∷ []

in_two-AreChunks : AreChunks in_two
in_two-AreChunks = (
  (omega arith, (omega arith, tt)),
  omega arith,
  ((omega arith, (omega arith, tt)), omega arith, tt),
)

abbrev in_one : List Bytes
in_one = rest_of_two ∷ []

in_one-AreChunks : AreChunks in_one
in_one-AreChunks = (rest_of_two-AreBytes, omega arith, tt)

receive_all-Received_example :
    (r : ClientState × FdSet × List Bytes) × (receive_all collect collect-IsLocal none in_two
        waiting_client nothing_watched []
      ≡ some r)
    × Received collect collect-IsLocal waiting_client [] rest_of_two r.0 r.2
receive_all-Received_example =
    receive_all-Received collect collect-IsLocal none in_two waiting_client nothing_watched []
      waiting_client-IsWaiting in_two-AreChunks

abbrev free_client : ClientState
free_client = record { fd = none; buffer = replicate 771 0; len = 0 }
