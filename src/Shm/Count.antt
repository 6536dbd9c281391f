-- ===== src/Shm/Count.antt =====
-- The life of the message segment under src/shm.cpp: processes attach, store and leave, one at a
-- time, and `process_num` counts them. The kernel may refuse every call.
use franka_kistar_r_exp_gwb.Common.{
  ℕ, ◌⊎◌, inl, inr, Bool-cases, ◌+◌, ◌-◌, ◌^◌, ◌<◌, ◌≡◌, Bool, true, false, ◌&&◌, Option, none,
  some, List, [], ◌∷◌, arith, if◌then◌else◌, length,
}
use franka_kistar_r_exp_gwb.Double.{Double}
use franka_kistar_r_exp_gwb.Shm.Defs.{ShmMsgs, zero_msgs}
use franka_kistar_r_exp_gwb.Shm.Attach.{init_shm, delete_shared_memory}

-- What shmget and shmat answer to a process that attaches, what shmctl answers to the removal if
-- one that leaves asks for it, and any write to the other fields by a process that is attached.
pub data Event (F : Type 0) : Type 0 where
  attach : Bool → Bool → Event F
  leave : Bool → Event F
  store : (ShmMsgs F → ShmMsgs F) → Event F

module _ {F : Type 0} ⦃d : Double F⦄ where
  -- `none`: no segment has the key. shmget creates one filled with zeros, which stays if shmat
  -- fails and the process exits.
  unfoldable pub step : Event F → Option (ShmMsgs F) → Option (ShmMsgs F)
  unfolding init_shm delete_shared_memory
  step (attach got attached) none =
      if got
      then elim (init_shm got attached zero_msgs) [ none ↦ some zero_msgs | some t ↦ some t ]
      else none
  step (attach got attached) (some s) = elim (init_shm got attached s) [
    | none ↦ some s
    | some t ↦ some t
  ]
  step (leave removable) none = none
  step (leave removable) (some s) =
      let (left, removed) = delete_shared_memory removable (some s) in
      if removed then none else left
  step (store f) none = none
  step (store f) (some s) = some (record (f s) { process_num = s.process_num })

  unfoldable pub run : List (Event F) → Option (ShmMsgs F) → Option (ShmMsgs F)
  run [] w = w
  run (e ∷ es) w = run es (step e w)

  -- How many processes hold the segment after the events.
  abbrev pub holders : List (Event F) → ℕ → ℕ
  holders [] n = n
  holders (attach got attached ∷ es) n = holders es (if got && attached then n + 1 else n)
  holders (leave removable ∷ es) n = holders es (n - 1)
  holders (store f ∷ es) n = holders es n

  -- Nobody leaves who has not attached.
  abbrev pub IsPaired : List (Event F) → ℕ → Type 0
  IsPaired [] n = Unit
  IsPaired (attach got attached ∷ es) n = IsPaired es (if got && attached then n + 1 else n)
  IsPaired (leave removable ∷ es) n = (0 < n) × IsPaired es (n - 1)
  IsPaired (store f ∷ es) n = IsPaired es n

  -- No removal fails, and no shmat behind a shmget that succeeded.
  abbrev pub is_smooth : List (Event F) → Bool
  is_smooth [] = true
  is_smooth (attach true attached ∷ es) = attached && is_smooth es
  is_smooth (attach false attached ∷ es) = is_smooth es
  is_smooth (leave removable ∷ es) = removable && is_smooth es
  is_smooth (store f ∷ es) = is_smooth es

  -- No segment has no holders, and a segment counts them.
  abbrev pub Counts : Option (ShmMsgs F) → ℕ → Type 0
  Counts none n = n ≡ 0
  Counts (some s) n = s.process_num ≡ n

  -- A segment has a holder.
  abbrev pub IsHeld : Option (ShmMsgs F) → ℕ → Type 0
  IsHeld none n = Unit
  IsHeld (some s) n = 0 < n

  attach-Counts :
      (got attached : Bool) (w : Option (ShmMsgs F)) (n : ℕ)
      → n + 1 < 2 ^ 32
      → Counts w n
      → Counts (step (attach got attached) w) (if got && attached then n + 1 else n)
  unfolding step
  attach-Counts true true none n h c = ground arith
  attach-Counts true false none n h c = ground arith
  attach-Counts false attached none n h c = ground arith
  attach-Counts true true (some s) n h c = ground arith
  attach-Counts true false (some s) n h c = ground arith
  attach-Counts false attached (some s) n h c = ground arith

  leave-Counts :
      (removable : Bool) (w : Option (ShmMsgs F)) (n : ℕ)
      → n < 2 ^ 32
      → 0 < n
      → Counts w n
      → Counts (step (leave removable) w) (n - 1)
  unfolding step
  leave-Counts removable none n h p c = ground arith
  leave-Counts true (some s) n h p c = ground arith
  leave-Counts false (some s) n h p c = ground arith

  attach-IsHeld : (w : Option (ShmMsgs F)) (n : ℕ) → IsHeld (step (attach true true) w) (n + 1)
  unfolding step
  attach-IsHeld none n = omega arith
  attach-IsHeld (some s) n = omega arith

  leave-IsHeld :
      (w : Option (ShmMsgs F)) (n : ℕ)
      → n < 2 ^ 32
      → 0 < n
      → Counts w n
      → IsHeld (step (leave true) w) (n - 1)
  unfolding step
  leave-IsHeld none n h p c = tt
  leave-IsHeld (some s) n h p c = ground arith

  refused-IsHeld :
      (attached : Bool) (w : Option (ShmMsgs F)) (n : ℕ)
      → IsHeld w n
      → IsHeld (step (attach false attached) w) n
  unfolding step
  refused-IsHeld attached none n c = c
  refused-IsHeld attached (some s) n c = c

  run-Counts-IsHeld :
      (es : List (Event F)) (w : Option (ShmMsgs F)) (n : ℕ)
      → n + length es < 2 ^ 32
      → IsPaired es n
      → Counts w n
      → Counts (run es w) (holders es n)
        × (is_smooth es ≡ true → IsHeld w n → IsHeld (run es w) (holders es n))
  unfolding run step
  run-Counts-IsHeld [] w n h p c = (c, λ s k. k)
  run-Counts-IsHeld (attach true true ∷ es) w n h p c =
      let (x, y) =
        run-Counts-IsHeld es (step (attach true true) w) (n + 1) (omega arith) p
          (attach-Counts true true w n (omega arith) c) in
      (x, λ s k. y s (attach-IsHeld w n))
  run-Counts-IsHeld (attach true false ∷ es) w n h p c =
      let (x, y) =
        run-Counts-IsHeld es (step (attach true false) w) n (omega arith) p
          (attach-Counts true false w n (omega arith) c) in
      (x, λ s k. ground arith)
  run-Counts-IsHeld (attach false attached ∷ es) w n h p c =
      let (x, y) =
        run-Counts-IsHeld es (step (attach false attached) w) n (omega arith) p
          (attach-Counts false attached w n (omega arith) c) in
      (x, λ s k. y s (refused-IsHeld attached w n k))
  run-Counts-IsHeld (leave true ∷ es) w n h p c =
      let (x, y) =
        run-Counts-IsHeld es (step (leave true) w) (n - 1) (omega arith) p.1
          (leave-Counts true w n (omega arith) p.0 c) in
      (x, λ s k. y s (leave-IsHeld w n (omega arith) p.0 c))
  run-Counts-IsHeld (leave false ∷ es) w n h p c =
      let (x, y) =
        run-Counts-IsHeld es (step (leave false) w) (n - 1) (omega arith) p.1
          (leave-Counts false w n (omega arith) p.0 c) in
      (x, λ s k. ground arith)
  run-Counts-IsHeld (store f ∷ es) none n h p c =
      run-Counts-IsHeld es (step (store f) none) n (omega arith) p c
  run-Counts-IsHeld (store f ∷ es) (some s) n h p c =
      run-Counts-IsHeld es (step (store f) (some s)) n (omega arith) p c

  -- After any sequence of attaching, storing and leaving in which only holders leave, whatever the
  -- kernel refuses, nobody holds the segment if it does not exist, and otherwise `process_num` is
  -- the number of its holders, as long as the events are too few to wrap the counter. If the
  -- segment has a holder at first, should it exist, then it exists exactly if somebody holds it,
  -- unless a removal has failed, or a shmat behind a successful shmget.
  pub run-Counts :
      (es : List (Event F)) (w : Option (ShmMsgs F)) (n : ℕ)
      → n + length es < 2 ^ 32
      → IsPaired es n
      → Counts w n
      → IsHeld w n
      → Counts (run es w) (holders es n)
        × ((is_smooth es ≡ false) ⊎ IsHeld (run es w) (holders es n))
  run-Counts es w n h p c k =
      let (x, y) = run-Counts-IsHeld es w n h p c in
      (x, elim (Bool-cases (is_smooth es)) [ inl s ↦ inr (y s k) | inr s ↦ inl s ])
