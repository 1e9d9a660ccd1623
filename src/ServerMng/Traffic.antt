-- ===== src/ServerMng/Traffic.antt =====
-- server/server_mng.c behind the receive buffers of server/server_net.c.
use chat_project.Prelude.{◌≡◌, some, List}
use chat_project.Memory.{Bytes}
use chat_project.Net.{ClientState, FdSet}
use chat_project.Net.Process.{pending}
use chat_project.Net.Stream.{IsWaiting, AreChunks, join, receive_all, receive_all_fragmentation}
use chat_project.ServerMng.{ServerMng, handle_message, on_disconnect}
use chat_project.ServerMng.Reads.{handle_message-take}

-- However TCP cuts the bytes of a client that waits into chunks of at most 514 bytes, the users, the
-- groups and the replies come out the same, and so does the incomplete message that is left.
pub handle_message_fragmentation :
    (chunks chunks' : List Bytes) (c : ClientState) (fds : FdSet) (s : ServerMng)
    → IsWaiting c
    → AreChunks chunks
    → AreChunks chunks'
    → join chunks ≡ join chunks'
    → (r r' : ClientState × FdSet × ServerMng) × (receive_all handle_message handle_message-take
          (some on_disconnect)
          chunks
          c
          fds
          s
        ≡ some r)
      × (receive_all handle_message handle_message-take (some on_disconnect) chunks' c fds s
          ≡ some r')
      × (r.2 ≡ r'.2)
      × (pending r.0 ≡ pending r'.0)
handle_message_fragmentation chunks chunks' =
    receive_all_fragmentation handle_message handle_message-take (some on_disconnect) chunks chunks'
