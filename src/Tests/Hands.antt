-- ===== src/Tests/Hands.antt =====
-- Tests of the theorems on the hand between the topics and the bus.
use franka_kistar_r_exp_gwb.Common.{
  ℕ, zero, suc, ◌+◌, ◌<◌, ◌≡◌, refl, List, [], ◌∷◌, map, arith, get_or, replicate,
}
use franka_kistar_r_exp_gwb.Common.Int.{ℤ, pos, negsuc, ◌≤ℤ◌}
use franka_kistar_r_exp_gwb.Shm.{zero_msgs, hand_dof}
use franka_kistar_r_exp_gwb.Bridge.Publish.{publish_all, initial_messages}
use franka_kistar_r_exp_gwb.Bridge.Targets.{to_uint8}
use franka_kistar_r_exp_gwb.Bridge.Publish.Contents.{seen, snapshot}
use franka_kistar_r_exp_gwb.Ethercat.Pdo.{word, to_int16}
use franka_kistar_r_exp_gwb.Ethercat.Pdo.Send.{IsSent}
use franka_kistar_r_exp_gwb.Ethercat.Cycle.{Thread, round}
use franka_kistar_r_exp_gwb.Ethercat.Cycle.Poses.{OnlyMeasures}
use franka_kistar_r_exp_gwb.Ethercat.Cycle.Data.{IsReceived, round_serves}
use franka_kistar_r_exp_gwb.System.Hand.{commanded, reported, topic_to_hand, hand_to_topic}
use franka_kistar_r_exp_gwb.Tests.Exact.{whole, quarter_turns}
use franka_kistar_r_exp_gwb.Tests.Rounds.{idle, setup, answered}

abbrev running : Thread ℤ
running = record idle { dorun = 1 }

round_serves_example :
    let r = round setup answered running in
    ((hand : ℕ) → hand < 1 → IsSent running.shm hand r.buffers.outputs)
    × ((hand : ℕ) → hand < 1 → IsReceived answered.inputs r.shm hand)
    × OnlyMeasures running.shm r.shm
round_serves_example = round_serves setup answered running (omega arith) tt

abbrev grip : List ℤ
grip = negsuc 1999 ∷ pos 30_000 ∷ replicate 14 (pos 12)

grip_in_range :
    (values : List ℤ)
    → ((i : ℕ) → (negsuc 32767 ≤ℤ get_or values i (pos 0)) × (get_or values i (pos 0) ≤ℤ pos 32767))
    → (v : ℤ) → negsuc 32767 ≤ℤ v
    → v ≤ℤ pos 32767
    → (i : ℕ)
    → (negsuc 32767 ≤ℤ get_or (v ∷ values) i (pos 0)) × (get_or (v ∷ values) i (pos 0) ≤ℤ pos 32767)
grip_in_range values h v lo hi zero = (lo, hi)
grip_in_range values h v lo hi (suc i) = h i

abbrev gripping : Thread ℤ
gripping = record idle { dorun = 1; shm = commanded grip (pos 3) (pos 257) zero_msgs }

range_all :
    (n : ℕ) (i : ℕ)
    → (negsuc 32767 ≤ℤ get_or (replicate n (pos 12)) i (pos 0))
      × (get_or (replicate n (pos 12)) i (pos 0) ≤ℤ pos 32767)
range_all zero i = (omega arith, omega arith)
range_all (suc n) i =
    grip_in_range (replicate n (pos 12)) (range_all n) (pos 12) (omega arith) (omega arith) i

topic_to_hand_example :
    let out = (round setup answered gripping).buffers.outputs in
    (word out 0 ≡ 65535)
    × (word out 1 ≡ 3)
    × ((i : ℕ) → i < hand_dof → to_int16 (word out (2 + i)) ≡ get_or grip i (pos 0))
unfolding to_uint8
topic_to_hand_example =
    topic_to_hand grip (pos 3) (pos 257) zero_msgs setup answered gripping refl
      (λ i _.
        grip_in_range (pos 30_000 ∷ replicate 14 (pos 12))
          (grip_in_range (replicate 14 (pos 12)) (range_all 14) (pos 30_000) (omega arith)
            (omega arith))
          (negsuc 1999) (omega arith) (omega arith) i)
      refl (omega arith) (omega arith) tt

hand_to_topic_example :
    map seen (publish_all (zero_msgs ∷ (round setup answered running).shm ∷ []) initial_messages).1
    ≡ snapshot zero_msgs ∷ reported answered.inputs running.shm ∷ []
hand_to_topic_example =
    hand_to_topic setup answered running (zero_msgs ∷ []) (omega arith) (omega arith) tt
