-- ===== src/Kinematics/Hand/Chain.antt =====
-- The transforms that src/fk_solver.cpp composes for a fingertip, as the motions of its joints.
use franka_kistar_r_exp_gwb.Common.{◌≡◌, refl, ap, ◌∙◌, List, [], ◌∷◌, Array}
use franka_kistar_r_exp_gwb.Common.Int.{ℤ, pos, negsuc}
use franka_kistar_r_exp_gwb.Double.{Double, nought, one}
use franka_kistar_r_exp_gwb.Kinematics.Transform.{
  Maths, identity, make_rpy_xyz, fixed_then_revolute,
}
use franka_kistar_r_exp_gwb.Kinematics.Transform.Exact.{IsExact}
use franka_kistar_r_exp_gwb.Kinematics.Transform.Maps.{
  apply, turn_x, turn_y, turn_z, shift, compose-apply, identity-apply, make_rpy_xyz-apply,
  axis_rotation-x, axis_rotation-y, axis_rotation-z,
}
use franka_kistar_r_exp_gwb.Kinematics.Transform.Rigid.{
  IsRigid, turn_x-IsRigid, turn_y-IsRigid, turn_z-IsRigid, shift-IsRigid, comp-IsRigid,
}
use franka_kistar_r_exp_gwb.Kinematics.Hand.{thumb_transform, finger_transform}

module _ {F : Type 0} ⦃d : Double F⦄ ⦃m : Maths F⦄ where
  -- A frame that is turned by `roll`, `pitch` and `yaw` and stands at x, y, z in its parent.
  unfoldable pub frame : F → F → F → F → F → F → Array F → Array F
  frame roll pitch yaw x y z v = shift x y z (turn_z yaw (turn_y pitch (turn_x roll v)))

  -- A frame that stands at x, y, z and is not turned.
  abbrev pub at : ℤ → ℤ → ℤ → Array F → Array F
  at x y z v = frame nought nought nought (d.of_nano x) (d.of_nano y) (d.of_nano z) v

  -- The last motion is that of the tip, and comes first.
  abbrev pub chain : List (Array F → Array F) → Array F → Array F
  chain [] v = v
  chain (f ∷ fs) v = f (chain fs v)

  -- From the mount to the tip of the thumb: the palm, the base, the four joints and the tip.
  abbrev pub thumb_motions : Array F → List (Array F → Array F)
  thumb_motions q =
      at (pos 0) (pos 0) (pos 71_000_000)
      ∷ frame (d.of_nano (negsuc 87_299_999)) nought nought (d.of_nano (negsuc 23_249_999))
          (d.of_nano (pos 12_240_000)) (d.of_nano (negsuc 29_879_999))
      ∷ frame (d.of_nano (negsuc 1_570_799_999)) nought nought (d.of_nano (pos 19_700_000))
          (d.of_nano (pos 2_000_000)) nought
      ∷ turn_y (q 0)
      ∷ at (negsuc 1_999_999) (pos 0) (pos 36_000_000)
      ∷ turn_z (q 1)
      ∷ at (pos 2_000_000) (pos 0) (pos 10_200_000)
      ∷ turn_y (q 2)
      ∷ at (pos 0) (pos 0) (pos 33_500_000)
      ∷ turn_y (q 3)
      ∷ at (negsuc 1_999_999) (pos 0) (pos 10_000_000)
      ∷ []

  -- The same for another finger, whose base is `base`.
  abbrev pub finger_motions : (Array F → Array F) → Array F → List (Array F → Array F)
  finger_motions base q =
      at (pos 0) (pos 0) (pos 71_000_000)
      ∷ base
      ∷ at (pos 23_250_000) (pos 0) (pos 4_700_000)
      ∷ turn_x (q 0)
      ∷ at (pos 2_000_000) (pos 0) (pos 19_500_000)
      ∷ turn_y (q 1)
      ∷ at (pos 0) (pos 0) (pos 33_500_000)
      ∷ turn_y (q 2)
      ∷ at (pos 0) (pos 0) (pos 26_700_000)
      ∷ at (pos 0) (pos 0) (pos 0)
      ∷ turn_y (q 3)
      ∷ at (negsuc 1_999_999) (pos 0) (pos 10_000_000)
      ∷ []

module _ {F : Type 0} ⦃d : Double F⦄ ⦃m : Maths F⦄ ⦃h : IsExact F⦄ where
  rpy-frame :
      (roll pitch yaw x y z : F) (v : Array F)
      → apply (make_rpy_xyz roll pitch yaw x y z) v ≡ frame roll pitch yaw x y z v
  unfolding frame
  rpy-frame roll pitch yaw x y z v = make_rpy_xyz-apply roll pitch yaw x y z v

  revolute_x :
      (roll pitch yaw x y z q : F) (v : Array F)
      → apply (fixed_then_revolute roll pitch yaw x y z one nought nought q) v
        ≡ frame roll pitch yaw x y z (turn_x q v)
  unfolding fixed_then_revolute
  revolute_x roll pitch yaw x y z q v =
      compose-apply _ _ v
      ∙ (rpy-frame roll pitch yaw x y z _ ∙ ap (frame roll pitch yaw x y z) (axis_rotation-x q v))

  revolute_y :
      (roll pitch yaw x y z q : F) (v : Array F)
      → apply (fixed_then_revolute roll pitch yaw x y z nought one nought q) v
        ≡ frame roll pitch yaw x y z (turn_y q v)
  unfolding fixed_then_revolute
  revolute_y roll pitch yaw x y z q v =
      compose-apply _ _ v
      ∙ (rpy-frame roll pitch yaw x y z _ ∙ ap (frame roll pitch yaw x y z) (axis_rotation-y q v))

  revolute_z :
      (roll pitch yaw x y z q : F) (v : Array F)
      → apply (fixed_then_revolute roll pitch yaw x y z nought nought one q) v
        ≡ frame roll pitch yaw x y z (turn_z q v)
  unfolding fixed_then_revolute
  revolute_z roll pitch yaw x y z q v =
      compose-apply _ _ v
      ∙ (rpy-frame roll pitch yaw x y z _ ∙ ap (frame roll pitch yaw x y z) (axis_rotation-z q v))

  identity-frame :
      (roll pitch yaw x y z : F) (v : Array F)
      → apply identity (frame roll pitch yaw x y z v) ≡ frame roll pitch yaw x y z v
  unfolding frame
  identity-frame roll pitch yaw x y z v = identity-apply _

  pub thumb_transform-apply :
      (q v : Array F) → apply (thumb_transform q) v ≡ chain (thumb_motions q) v
  unfolding thumb_transform
  thumb_transform-apply q v =
      simp (compose-apply, rpy-frame, revolute_y, revolute_z, identity-frame)

  pub finger_transform-apply :
      (base_roll base_pitch base_yaw base_x base_y base_z : F) (q v : Array F)
      → apply (finger_transform base_roll base_pitch base_yaw base_x base_y base_z q) v
        ≡ chain (finger_motions (frame base_roll base_pitch base_yaw base_x base_y base_z) q) v
  unfolding finger_transform
  finger_transform-apply base_roll base_pitch base_yaw base_x base_y base_z q v =
      simp (compose-apply, rpy-frame, revolute_x, revolute_y, identity-frame)

  pub frame-IsRigid : (roll pitch yaw x y z : F) → IsRigid (frame roll pitch yaw x y z)
  unfolding frame
  frame-IsRigid roll pitch yaw x y z =
      comp-IsRigid (shift x y z) (λ v. turn_z yaw (turn_y pitch (turn_x roll v)))
        (shift-IsRigid x y z)
        (comp-IsRigid (turn_z yaw) (λ v. turn_y pitch (turn_x roll v)) (turn_z-IsRigid yaw)
          (comp-IsRigid (turn_y pitch) (turn_x roll) (turn_y-IsRigid pitch) (turn_x-IsRigid roll)))

  at-IsRigid : (x y z : ℤ) → IsRigid (at {F = F} x y z)
  at-IsRigid x y z = frame-IsRigid nought nought nought (d.of_nano x) (d.of_nano y) (d.of_nano z)

  abbrev AllRigid : List (Array F → Array F) → Type 0
  AllRigid [] = Unit
  AllRigid (f ∷ fs) = IsRigid f × AllRigid fs

  chain-IsRigid : (fs : List (Array F → Array F)) → AllRigid fs → IsRigid (chain fs)
  chain-IsRigid [] a v w = refl
  chain-IsRigid (f ∷ fs) (p, a) v w = p (chain fs v) (chain fs w) ∙ chain-IsRigid fs a v w

  pub thumb_motions-IsRigid : (q : Array F) → IsRigid (chain (thumb_motions q))
  thumb_motions-IsRigid q = chain-IsRigid (thumb_motions q) (
    at-IsRigid (pos 0) (pos 0) (pos 71_000_000),
    (
      frame-IsRigid (d.of_nano (negsuc 87_299_999)) nought nought (d.of_nano (negsuc 23_249_999))
          (d.of_nano (pos 12_240_000)) (d.of_nano (negsuc 29_879_999)),
      (
        frame-IsRigid (d.of_nano (negsuc 1_570_799_999)) nought nought (d.of_nano (pos 19_700_000))
            (d.of_nano (pos 2_000_000)) nought,
        (
          turn_y-IsRigid (q 0),
          (
            at-IsRigid (negsuc 1_999_999) (pos 0) (pos 36_000_000),
            (
              turn_z-IsRigid (q 1),
              (
                at-IsRigid (pos 2_000_000) (pos 0) (pos 10_200_000),
                (
                  turn_y-IsRigid (q 2),
                  (
                    at-IsRigid (pos 0) (pos 0) (pos 33_500_000),
                    (
                      turn_y-IsRigid (q 3),
                      (at-IsRigid (negsuc 1_999_999) (pos 0) (pos 10_000_000), (tt)),
                    ),
                  ),
                ),
              ),
            ),
          ),
        ),
      ),
    ),
  )

  pub finger_motions-IsRigid :
      (base : Array F → Array F) (q : Array F)
      → IsRigid base
      → IsRigid (chain (finger_motions base q))
  finger_motions-IsRigid base q b = chain-IsRigid (finger_motions base q) (
    at-IsRigid (pos 0) (pos 0) (pos 71_000_000),
    (
      b,
      (
        at-IsRigid (pos 23_250_000) (pos 0) (pos 4_700_000),
        (
          turn_x-IsRigid (q 0),
          (
            at-IsRigid (pos 2_000_000) (pos 0) (pos 19_500_000),
            (
              turn_y-IsRigid (q 1),
              (
                at-IsRigid (pos 0) (pos 0) (pos 33_500_000),
                (
                  turn_y-IsRigid (q 2),
                  (
                    at-IsRigid (pos 0) (pos 0) (pos 26_700_000),
                    (
                      at-IsRigid (pos 0) (pos 0) (pos 0),
                      (
                        turn_y-IsRigid (q 3),
                        (at-IsRigid (negsuc 1_999_999) (pos 0) (pos 10_000_000), (tt)),
                      ),
                    ),
                  ),
                ),
              ),
            ),
          ),
        ),
      ),
    ),
  )
