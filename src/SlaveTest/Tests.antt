-- ===== src/SlaveTest/Tests.antt =====
-- Output of the test framework, and the cases of the controller without a set-up.
use ammc.Base.{◌≡◌, refl, false, [], ◌∷◌}
use ammc.SlaveTest.{
  text, escape, printf_colored, is_valid_color, set_color, clear_color, c_none, test_expr,
  failed_label,
}

-- Text without a color is not printed at all.
no_color : printf_colored [] c_none (b'x' ∷ []) ≡ (0, [])
unfolding printf_colored is_valid_color
no_color = refl

failed_test :
    test_expr (record { test_passed = 1; test_failed = 2; output = [] }) false (b'x' ∷ []) ≡ (
      0,
      record {
        test_passed = 1;
        test_failed = 3;
        output =
            escape 91 ∷ text failed_label ∷ escape 0 ∷ text (b'x' ∷ []) ∷ text (b'\n' ∷ []) ∷ [];
      },
    )
unfolding test_expr printf_colored is_valid_color set_color clear_color
failed_test = refl
