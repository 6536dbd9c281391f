-- ===== src/Ethercat/Start/Order.antt =====
-- The start of `ecatthread` beside `ethercat_run` (src/Ethercat_setting.cpp): the thread sets
-- `dorun` to 0 before its loop, and `ethercat_run` sets it to 1 once the slaves are asked to be
-- operational. Nothing orders the two.
use franka_kistar_r_exp_gwb.Common.{
  ℕ, ◌<◌, ◌≡◌, sym, subst, ◌⊎◌, inl, inr, refl, true, Option, none, some, List, [], ◌∷◌, arith,
  if◌then◌else◌, Bool-cases, ◌∙◌,
}
use franka_kistar_r_exp_gwb.Double.{Double}
use franka_kistar_r_exp_gwb.Kinematics.Transform.{Maths}
use franka_kistar_r_exp_gwb.Ethercat.Cycle.{Setup, RoundAnswers, Thread, round}
use franka_kistar_r_exp_gwb.Ethercat.Cycle.Poses.{round_waits, round_runs}
use franka_kistar_r_exp_gwb.Ethercat.Start.{Action}
use franka_kistar_r_exp_gwb.Ethercat.Start.Trace.{count, is_dorun}

-- Who moves: `ethercat_run` by one action, or the thread by its prologue or a round.
pub data Move : Type 0 where
  main_acts : Move
  thread_acts : RoundAnswers → Move

-- What is left of `ethercat_run`, the thread from its prologue on, and `dorun` before that.
pub record Boot (F : Type 0) : Type 0 where
  pub todo : List Action
  pub dorun : ℕ
  pub thread : Option (Thread F)

module _ {F : Type 0} where
  -- dorun = n
  unfoldable pub store_dorun : ℕ → Boot F → Boot F
  store_dorun n b = record b {
    dorun = n;
    thread = elim b.thread [ none ↦ none | some t ↦ some (record t { dorun = n }) ];
  }

  -- The next action of `ethercat_run`, of which only one concerns `dorun`.
  unfoldable pub act : List Action → Boot F → Boot F
  act [] b = record b { todo = [] }
  act (x ∷ xs) b = let c = record b { todo = xs } in if is_dorun x then store_dorun 1 c else c

module _ {F : Type 0} ⦃d : Double F⦄ ⦃m : Maths F⦄ (u : Setup) (fresh : Thread F) where
  -- `fresh` is the thread behind its prologue.
  unfoldable pub move : Move → Boot F → Boot F
  move main_acts b = act b.todo b
  move (thread_acts a) b = elim b.thread [
    | none ↦ record b { dorun = 0; thread = some fresh }
    | some t ↦ record b { thread = some (round u a t) }
  ]

  unfoldable pub move_all : List Move → Boot F → Boot F
  move_all [] b = b
  move_all (x ∷ xs) b = move_all xs (move x b)

  -- The thread has not come to its loop, or it waits in it and has left memory and buffers alone.
  abbrev pub IsWaiting : Option (Thread F) → Type 0
  IsWaiting none = Unit
  IsWaiting (some t) = (t.dorun ≡ 0) × (t.shm ≡ fresh.shm) × (t.buffers ≡ fresh.buffers)

  abbrev pub IsRunning : Option (Thread F) → Type 0
  IsRunning none = ⊥
  IsRunning (some t) = 0 < t.dorun

  abbrev pub IsThere : Option (Thread F) → Type 0
  IsThere none = ⊥
  IsThere (some t) = Unit

  -- `ethercat_run` sets `dorun` as often again.
  abbrev pub pending_stores : Boot F → ℕ
  pending_stores b = count is_dorun b.todo

  -- The thread has not missed the start, nor can it.
  abbrev IsOnTime : Boot F → Type 0
  IsOnTime b =
      ((pending_stores b ≡ 1) × IsThere b.thread) ⊎ ((pending_stores b ≡ 0) × IsRunning b.thread)

  abbrev IsLate : Boot F → Type 0
  IsLate b = (pending_stores b ≡ 0) × IsWaiting b.thread

  act-IsLate :
      (xs : List Action) (b : Boot F)
      → count is_dorun xs ≡ 0
      → IsWaiting b.thread
      → IsLate (act xs b)
  unfolding act
  act-IsLate [] b h w = (refl, w)
  act-IsLate (x ∷ xs) b h w = elim (Bool-cases (is_dorun x)) [
    | inl e ↦ absurd (ground arith)
    | inr e ↦ rw e (ground arith, w)
  ]

  pending-store_dorun : (n : ℕ) (b : Boot F) → pending_stores (store_dorun n b) ≡ pending_stores b
  unfolding store_dorun
  pending-store_dorun n b = refl

  store-IsRunning :
      (b : Boot F) (o : Option (Thread F))
      → b.thread ≡ o
      → IsThere o
      → IsRunning (store_dorun 1 b).thread
  unfolding store_dorun
  store-IsRunning b none e t = absurd t
  store-IsRunning b (some x) e t = rw (e, store_dorun) (omega arith)

  act-IsOnTime :
      (xs : List Action) (b : Boot F) → IsOnTime (record b { todo = xs }) → IsOnTime (act xs b)
  unfolding act
  act-IsOnTime [] b o = o
  act-IsOnTime (x ∷ xs) b o = elim (Bool-cases (is_dorun x)) [
    | inl e ↦ rw e (inr (stored e o))
    | inr e ↦ rw e (rw e at o)
  ]
    where
      stored :
          is_dorun x ≡ true
          → IsOnTime (record b { todo = x ∷ xs })
          → (pending_stores (store_dorun 1 (record b { todo = xs })) ≡ 0)
            × IsRunning (store_dorun 1 (record b { todo = xs })).thread
      stored e (inl (h, t)) =
          let rest : count is_dorun xs ≡ 0 = ground arith in
          (
            pending-store_dorun 1 (record b { todo = xs }) ∙ rest,
            store-IsRunning (record b { todo = xs }) b.thread refl t,
          )
      stored e (inr (h, r)) = absurd (ground arith)

  move-IsOnTime : (x : Move) (b : Boot F) → IsOnTime b → IsOnTime (move x b)
  unfolding move
  move-IsOnTime main_acts b o = act-IsOnTime b.todo b o
  move-IsOnTime (thread_acts a) b o = runs b.thread refl o
    where
      runs : (t : Option (Thread F)) → b.thread ≡ t → IsOnTime b → IsOnTime (move (thread_acts a) b)
      runs none e (inl (h, t)) = absurd (subst IsThere e t)
      runs none e (inr (h, r)) = absurd (subst IsRunning e r)
      runs (some t) e (inl (h, _)) = rw (e, move) (inl (h, tt))
      runs (some t) e (inr (h, r)) =
          let go : 0 < t.dorun = subst IsRunning e r in
          let (_, _, next) = round_runs u a t go in rw (e, move) (inr (h, omega arith))

  runs_on : (ms : List Move) (b : Boot F) → IsOnTime b → IsOnTime (move_all ms b)
  unfolding move_all
  runs_on [] b h = h
  runs_on (x ∷ ms) b h = runs_on ms (move x b) (move-IsOnTime x b h)

  has_started : (b : Boot F) → IsOnTime b → pending_stores b ≡ 0 → IsRunning b.thread
  has_started b (inl (h, t)) none_left = absurd (omega arith)
  has_started b (inr (h, r)) none_left = r

  -- If the thread has come to its loop before, it runs from the moment when `ethercat_run` sets
  -- `dorun`.
  pub start_met :
      (b : Boot F) (ms : List Move)
      → pending_stores b ≡ 1
      → IsThere b.thread
      → pending_stores (move_all ms b) ≡ 0
      → IsRunning (move_all ms b).thread
  start_met b ms h t left = has_started (move_all ms b) (runs_on ms b (inl (h, t))) left

  module _ (calm : fresh.dorun ≡ 0) where
    move-IsLate : (x : Move) (b : Boot F) → IsLate b → IsLate (move x b)
    unfolding move
    move-IsLate main_acts b (h, w) = act-IsLate b.todo b h w
    move-IsLate (thread_acts a) b (h, w) = waits b.thread refl w
      where
        waits :
            (o : Option (Thread F)) → b.thread ≡ o → IsWaiting o → IsLate (move (thread_acts a) b)
        waits none e v = rw (e, move) (h, (calm, refl, refl))
        waits (some t) e (stop, same, kept) =
            let (x, y, z) = round_waits u a t stop in rw (e, move) (h, (z, x ∙ same, y ∙ kept))

    waits_on : (ms : List Move) (b : Boot F) → IsLate b → IsLate (move_all ms b)
    unfolding move_all
    waits_on [] b h = h
    waits_on (x ∷ ms) b h = waits_on ms (move x b) (move-IsLate x b h)

    -- If `ethercat_run` sets `dorun` before the thread has come to its prologue, the prologue
    -- undoes it: whatever moves follow, the thread does not serve the hands in any round, and
    -- leaves memory and buffers as they were.
    pub start_missed :
        (b : Boot F) (ms : List Move)
        → pending_stores b ≡ 0
        → b.thread ≡ none
        → IsWaiting (move_all ms b).thread
    start_missed b ms h e = (waits_on ms b (h, subst IsWaiting (sym e) tt)).1
