-- ===== src/Peer/Conn.antt =====
-- The Conn of claudy-p2p/internal/peer/conn.go: a byte stream over messages.
pub mod Bytestream
use some_go_foolery.Base.{
  ℕ, zero, suc, ◌+◌, ◌*◌, ◌≡◌, Bool, true, false, Option, none, some, List, [], ◌∷◌, ◌++◌, length,
  take, drop, ltb, if◌then◌else◌,
}
use some_go_foolery.Base.Bytes.{Bytes}

abbrev pub max_msg_size : ℕ
max_msg_size = 16 * 1024

-- The capacity of the channel `in`.
abbrev pub queue_size : ℕ
queue_size = 1024

pub data Error : Type 0 where
  eof deadline_exceeded closed_pipe send_failed : Error

-- `queue` is the channel `in`, `done` says that the context is cancelled, and `expired` that the channel
-- of the read deadline is closed.
pub record Conn : Type 0 where
  pub queue : List Bytes
  pub leftover : Bytes
  pub done : Bool
  pub expired : Bool
  pub dc_closed : Bool

-- The cases of a `select` that may be ready together; the runtime picks one that is.
pub data Ready : Type 0 where
  ctx_done deadline frame : Ready

-- The two results of `Read`: the bytes copied, and the error.
abbrev pub Got : Type 0
Got = Bytes × Option Error

abbrev pub copy_frame : ℕ → Conn → List Bytes → Option (Got × Conn)
copy_frame n c [] = none
copy_frame n c (f ∷ fs) = some (
  (take n f, none),
  record c { queue = fs; leftover = if ltb n (length f) then drop n f else c.leftover },
)

abbrev pub when {ℓ} : {A : Type ℓ} → Bool → A → Option A
when true a = some a
when false a = none

abbrev pub select_read : ℕ → Conn → Ready → Option (Got × Conn)
select_read n c ctx_done = when c.done (([], some eof), c)
select_read n c deadline = when c.expired (([], some deadline_exceeded), c)
select_read n c frame = copy_frame n c c.queue

-- `Read` into a buffer of n bytes; no result means that the picked case is not ready.
unfoldable pub read : ℕ → Ready → Conn → Option (Got × Conn)
read n pick c =
    if ltb 0 (length c.leftover)
    then some ((take n c.leftover, none), record c { leftover = drop n c.leftover })
    else select_read n c pick

-- The handler of OnMessage: the copy is queued if there is room, or dropped once the context is
-- cancelled; no result means that it still waits.
unfoldable pub on_message : Bytes → Ready → Conn → Option Conn
on_message msg frame c =
    when (ltb (length c.queue) queue_size) (record c { queue = c.queue ++ msg ∷ [] })
on_message msg pick c = when c.done c

-- `Close` runs its body once.
unfoldable pub close : Conn → Conn
close c = if c.done then c else record c { done = true; dc_closed = true }

-- How one round of the loop of `Write` goes: the context or the deadline stops it before the chunk is
-- touched, or `Send` is called and works or not.
pub data Round : Type 0 where
  cancelled expired_write sends : Round
  fails : Bool → Round

pub record Written : Type 0 where
  pub total : ℕ
  pub error : Option Error
  pub sent : List Bytes

abbrev pub stopped : Error → Written
stopped e = record { total = 0; error = some e; sent = [] }

abbrev pub after_send : Bytes → Written → Written
after_send chunk w = record w { total = length chunk + w.total; sent = chunk ∷ w.sent }

-- The flag of a failed `Send` says whether the pipe or the context is closed. After the rounds that are
-- listed every `Send` works.
abbrev pub send_chunk : Bytes → List Round → (List Round → Written) → Written
send_chunk chunk [] next = after_send chunk (next [])
send_chunk chunk (cancelled ∷ rs) next = stopped closed_pipe
send_chunk chunk (expired_write ∷ rs) next = stopped deadline_exceeded
send_chunk chunk (fails true ∷ rs) next = stopped closed_pipe
send_chunk chunk (fails false ∷ rs) next = stopped send_failed
send_chunk chunk (sends ∷ rs) next = after_send chunk (next rs)

-- Every round takes at least a byte, so more fuel than bytes is enough.
unfoldable pub write_loop : ℕ → List Round → Bytes → Written
write_loop zero rs p = record { total = 0; error = none; sent = [] }
write_loop (suc fuel) rs [] = record { total = 0; error = none; sent = [] }
write_loop (suc fuel) rs (x ∷ xs) =
    send_chunk (take max_msg_size (x ∷ xs)) rs
      (λ more. write_loop fuel more (drop max_msg_size (x ∷ xs)))

unfoldable pub write : List Round → Bytes → Written
write rs p = write_loop (suc (length p)) rs p
