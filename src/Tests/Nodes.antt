-- ===== src/Tests/Nodes.antt =====
-- Tests of the bridge's messages and of its life.
use Prim.Native.String.{String}
use franka_kistar_r_exp_gwb.Common.{
  ℕ, ◌+◌, ◌*◌, ◌≡◌, refl, true, false, some, List, [], ◌∷◌, map, arith,
}
use franka_kistar_r_exp_gwb.Common.Int.{pos, negsuc}
use franka_kistar_r_exp_gwb.Double.Fixed.{Fixed, fin, fixed_double}
use franka_kistar_r_exp_gwb.Shm.{ShmMsgs, zero_msgs, zero_traj}
use franka_kistar_r_exp_gwb.Bridge.Publish.{initial_messages, publish_all}
use franka_kistar_r_exp_gwb.Bridge.Publish.Contents.{
  seen, snapshot, publish_from_shared_memory-snapshot,
}
use franka_kistar_r_exp_gwb.Bridge.Node.{Memory, Kernel, main}
use franka_kistar_r_exp_gwb.Bridge.Node.Inbound.{
  Inbound, hand_mode, hand_target, franka_speed, deliver_all, deliver_all_count,
}
use franka_kistar_r_exp_gwb.Bridge.Node.Life.{Held, HeldTraj, main-Held}

abbrev sensors : List (String × ℕ)
sensors = ("finger", 4) ∷ ("axis", 3) ∷ []

abbrev measured : ShmMsgs Fixed
measured = record zero_msgs {
  j_pos = λ hand i. pos (100 * i + 7);
  j_kin = λ hand finger axis. negsuc (10 * finger + axis);
  servo_on = λ hand. 1;
}

publish_from_shared_memory-snapshot_example :
    map seen (publish_all (zero_msgs ∷ measured ∷ []) initial_messages).1
    ≡ map snapshot (zero_msgs ∷ measured ∷ [])
publish_from_shared_memory-snapshot_example =
    publish_from_shared_memory-snapshot Fixed (zero_msgs ∷ measured ∷ [])

-- One other process holds the messages, none the trajectories.
abbrev memory : Memory Fixed
memory = record { msgs = record zero_msgs { process_num = 1 }; traj = zero_traj }

abbrev kilohertz : Fixed
kilohertz = fin (pos 1_000_000_000_000)

abbrev willing : Kernel
willing = record {
  got = true;
  attached = true;
  traj_got = true;
  traj_attached = true;
  removable = true;
  traj_removable = false;
}

abbrev messages : List (Inbound Fixed)
messages = hand_mode (pos 1) ∷ hand_target (pos 5 ∷ []) ∷ franka_speed (fin (pos 500_000_000)) ∷ []

-- Spinning ends by an exception.
main-Held_example :
    let r = main (deliver_all messages) false kilohertz willing memory in
    (r.0 ≡ some 1) × Held true r.1.0 1 × HeldTraj false r.1.1 0
main-Held_example =
    main-Held (deliver_all messages) false kilohertz willing memory (deliver_all_count messages)
      refl refl refl refl refl (omega arith) (omega arith)
