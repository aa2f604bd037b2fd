-- ===== src/TaskQueue/Rules/Order.antt =====
-- The order of the queue is a total preorder.
use agent_sam.Prelude.{◌≡◌, true, arith, IsOrder}
use agent_sam.Database.{Task}
use agent_sam.TaskQueue.Rules.{queue_before}

pub queue_before-IsOrder : IsOrder queue_before
unfolding queue_before
queue_before-IsOrder = record { total = λ x y h. ground arith; trans = λ x y z h k. ground arith }

pub queue_before_refl : (t : Task) → queue_before t t ≡ true
unfolding queue_before
queue_before_refl t = ground arith
