-- ===== src/SlaveTest/PidCases.antt =====
-- slave/test/test-dcmotor-pid.c: the cases for the controller of slave/source/dcmotor_pid.c.
use ammc.Base.{ℕ, ◌-◌, ◌^◌, Bool, true, not, ◌==◌, ◌≡◌, refl, List, [], ◌∷◌}
use ammc.Slave.Motor.{Float, Pid, lt16, pid_iterate}

-- The speeds of the test, and the controller.
pub record Rig (F : Type 0) : Type 0 where
  pub speed_actual : ℕ
  pub speed_target : ℕ
  pub pid : Pid F

abbrev pub derivative_constant : ℕ
derivative_constant = 20

module _ (float : Float) where
  open float use {F, of_int16, to_int16}

  unfoldable pub with_positive_derivative : Rig F → Rig F
  with_positive_derivative r = record r {
    pid = record r.pid { err_prev = of_int16 derivative_constant };
  }

  unfoldable pub with_negative_derivative : Rig F → Rig F
  with_negative_derivative r = record r {
    pid = record r.pid { err_prev = of_int16 (2 ^ 16 - derivative_constant) };
  }

  unfoldable pub with_null_derivative : Rig F → Rig F
  with_null_derivative r = record r { pid = record r.pid { err_prev = of_int16 0 } }

  unfoldable pub when_sampled_lt_target : Rig F → Rig F
  when_sampled_lt_target r = record r { speed_actual = 100; speed_target = 110 }

  unfoldable pub when_sampled_eq_target : Rig F → Rig F
  when_sampled_eq_target r = record r { speed_actual = 100; speed_target = 100 }

  unfoldable pub when_sampled_gt_target : Rig F → Rig F
  when_sampled_gt_target r = record r { speed_actual = 110; speed_target = 100 }

  -- The corrected speed, and the controller behind it.
  unfoldable pub corrected : Rig F → ℕ × Rig F
  corrected r =
      let (speed, pid) =
        pid_iterate float r.pid (of_int16 r.speed_actual) (of_int16 r.speed_target) in
      (to_int16 speed, record r { pid = pid })

  abbrev pub above_target : Rig F → Bool × Rig F
  above_target r = let (speed, r') = corrected r in (lt16 r'.speed_target speed, r')

  abbrev pub below_target : Rig F → Bool × Rig F
  below_target r = let (speed, r') = corrected r in (lt16 speed r'.speed_target, r')

  unfoldable pub test_case_1 : Rig F → Bool × Rig F
  test_case_1 r = above_target (when_sampled_lt_target (with_positive_derivative r))

  unfoldable pub test_case_2 : Rig F → Bool × Rig F
  test_case_2 r = below_target (when_sampled_eq_target (with_positive_derivative r))

  unfoldable pub test_case_3 : Rig F → Bool × Rig F
  test_case_3 r = below_target (when_sampled_gt_target (with_positive_derivative r))

  unfoldable pub test_case_4 : Rig F → Bool × Rig F
  test_case_4 r = above_target (when_sampled_lt_target (with_negative_derivative r))

  unfoldable pub test_case_5 : Rig F → Bool × Rig F
  test_case_5 r = above_target (when_sampled_eq_target (with_negative_derivative r))

  unfoldable pub test_case_6 : Rig F → Bool × Rig F
  test_case_6 r = below_target (when_sampled_gt_target (with_negative_derivative r))

  unfoldable pub test_case_7 : Rig F → Bool × Rig F
  test_case_7 r = below_target (when_sampled_lt_target (with_null_derivative r))

  -- The corrected speed is assigned the target, which is then taken as the result.
  unfoldable pub test_case_8 : Rig F → Bool × Rig F
  test_case_8 r =
      let (speed, r') = corrected (when_sampled_eq_target (with_null_derivative r)) in
      let assigned = r'.speed_target in (not (assigned == 0), r')

  unfoldable pub test_case_9 : Rig F → Bool × Rig F
  test_case_9 r = above_target (when_sampled_gt_target (with_null_derivative r))

  -- The results of the cases in `main`, one after the other on the same controller.
  unfoldable pub run_cases : List (Rig F → Bool × Rig F) → Rig F → List Bool
  run_cases [] r = []
  run_cases (c ∷ cs) r = let (result, r') = c r in result ∷ run_cases cs r'

  abbrev pub cases : List (Rig F → Bool × Rig F)
  cases =
      test_case_1 ∷ test_case_2 ∷ test_case_3 ∷ test_case_4 ∷ test_case_5 ∷ test_case_6
      ∷ test_case_7 ∷ test_case_8 ∷ test_case_9 ∷ []

  -- The eighth case, which is to compare the corrected speed with the target, passes whatever the
  -- controller and the floating-point arithmetic do.
  pub test_case_8_passes : (r : Rig F) → (test_case_8 r).0 ≡ true
  unfolding test_case_8 corrected when_sampled_eq_target
  test_case_8_passes r = refl
