-- ===== src/TcpMessager/Queue.antt =====
-- The queue of packets of one socket: its front is the packet that is being written.
use group_share_filesystem.Base.{Bool, true, false, if◌then◌else◌, List, [], ◌∷◌, ◌++◌}
use group_share_filesystem.Packet.{Packet}

-- `size()`, as a Boolean.
abbrev pub in_progress : List Packet → Bool
in_progress [] = false
in_progress (p ∷ queue) = true

-- `push`, and then a write of the front if nothing was in the queue: the queue, and the packets whose
-- write starts.
unfoldable pub enqueue : Packet → List Packet → List Packet × List Packet
enqueue packet queue = (queue ++ packet ∷ [], if in_progress queue then [] else packet ∷ [])

-- `pop` after a write, and then a write of the new front if there is one.
unfoldable pub dequeue : List Packet → List Packet × List Packet
dequeue [] = ([], [])
dequeue (done ∷ []) = ([], [])
dequeue (done ∷ next ∷ queue) = (next ∷ queue, next ∷ [])
