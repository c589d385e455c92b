-- ===== src/Server/Connection/Batches.antt =====
-- paf/server.py, `try_send`: what is sent, and what is left.
use paf.Prelude.{ℕ, zero, suc, ◌+◌, ◌≤◌, ◌≡◌, refl, ap, arith, List, [], ◌∷◌, ◌++◌, length}
use paf.Proto.Fields.{Message}
use paf.Server.Connection.{Sent, sent, not_yet, lost, Round, goes_on, ends, send_batch}

-- How many calls of `send` have sent their message.
abbrev pub sent_count : List Sent → ℕ
sent_count [] = 0
sent_count (sent ∷ outcomes) = suc (sent_count outcomes)
sent_count (_ ∷ outcomes) = sent_count outcomes

-- The message that goes down with the connection.
abbrev pub lost_count : Round → ℕ
lost_count goes_on = 0
lost_count ends = 1

-- A batch takes messages from the front and leaves the others in their order. It takes no more than
-- the size of the batch, and no more than `send` has sent, but for one message where the connection
-- is lost.
pub send_batch-prefix :
    (n : ℕ) (msgs : List Message) (outcomes : List Sent)
    → (out : List Message) × (msgs ≡ out ++ (send_batch n msgs outcomes).0)
      × (length out ≤ n)
      × (length out ≤ sent_count outcomes + lost_count (send_batch n msgs outcomes).1)
unfolding send_batch
send_batch-prefix zero msgs outcomes = ([], refl, omega arith, omega arith)
send_batch-prefix (suc n) [] outcomes = ([], refl, omega arith, omega arith)
send_batch-prefix (suc n) (msg ∷ msgs) [] = ([], refl, omega arith, omega arith)
send_batch-prefix (suc n) (msg ∷ msgs) (sent ∷ outcomes) =
    let (out, split, size, count) = send_batch-prefix n msgs outcomes in
    (msg ∷ out, ap (λ ms. msg ∷ ms) split, omega (arith, size), omega (arith, count))
send_batch-prefix (suc n) (msg ∷ msgs) (not_yet ∷ outcomes) =
    let (out, split, size, count) = send_batch-prefix n (msg ∷ msgs) outcomes in
    (out, split, omega (arith, size), omega (arith, count))
send_batch-prefix (suc n) (msg ∷ msgs) (lost ∷ outcomes) =
    (msg ∷ [], refl, omega arith, omega arith)
