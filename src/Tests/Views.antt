-- ===== src/Tests/Views.antt =====
-- Views.
use cse130_asgn.Base.{false, [], some, done, fault, codes, ◌≡◌, ◌↔◌, refl, arith}
use cse130_asgn.Helpers.{is_numeric}
use cse130_asgn.Helpers.Decimal.{decimal}
use cse130_asgn.StrView.{
  is_negative, create_view, same, compare_vs, compare_vv, trim_whitespace, parse_to_int, minus_one,
}
use cse130_asgn.StrView.Compare.{compare_vs-same, compare_vv-compare_vs}
use cse130_asgn.StrView.Trim.{trim_whitespace-Trimmed, Solid-Trimmed}
use cse130_asgn.StrView.Trim.Blank.{trim_whitespace-fault}
use cse130_asgn.StrView.Number.{parse_to_int-value, parse_to_int_reject, parse_to_int-decimal}

compare_vs-same_example :
    (compare_vs (codes "GET /") (create_view (some 0) (some 3)) (codes "GET") ≡ done same)
    ↔ (codes "GET" ≡ codes "GET")
compare_vs-same_example = compare_vs-same [] (codes "GET") (codes " /") (codes "GET") 0 3 refl refl

trim_whitespace-Trimmed_example :
    trim_whitespace (codes ":  ab \r\n") (create_view (some 1) (some 6))
    ≡ done (create_view (some 3) (some 5))
trim_whitespace-Trimmed_example =
    trim_whitespace-Trimmed (codes ":") 2 (codes "ab") 1 (codes "\r\n") 1 6 3 5
      (Solid-Trimmed (codes "ab") (omega arith, (omega arith, tt)) (λ e. cc)) refl refl refl refl

trim_whitespace-fault_example :
    trim_whitespace (codes "  GET") (create_view (some 0) (some 1)) ≡ fault
trim_whitespace-fault_example =
    trim_whitespace-fault [] 2 b'G' (codes "ET") (omega arith) 0 1 refl (omega arith) (omega arith)

parse_to_int-value_example :
    parse_to_int (codes " 18446744073709551621\r\n") (create_view (some 0) (some 21)) ≡ done 5
parse_to_int-value_example =
    parse_to_int-value [] 1 (codes "18446744073709551621") 0 (codes "\r\n") 0 21 refl refl
      (unfold is_numeric in ground arith) (λ e. cc)

parse_to_int_reject_example :
    parse_to_int (codes " 1x2\r\n") (create_view (some 0) (some 4)) ≡ done minus_one
parse_to_int_reject_example =
    parse_to_int_reject [] 1 (codes "1x2") 0 (codes "\r\n") 0 4 refl refl (codes "1") b'x'
      (codes "2")
      (Solid-Trimmed (codes "1x2") (omega arith, (omega arith, (omega arith, tt))) (λ e. cc)) refl
      (unfold is_numeric in refl) (unfold is_numeric in (refl, tt))

parse_to_int-decimal_example :
    (parse_to_int (codes " 42\r\n") (create_view (some 0) (some 3)) ≡ done 42)
    × (is_negative 42 ≡ false)
unfolding decimal
parse_to_int-decimal_example =
    parse_to_int-decimal [] 42 1 0 (codes "\r\n") 0 3 (omega arith) refl refl

compare_vv-compare_vs_example :
    compare_vv
      (codes "GET /")
      (create_view (some 0) (some 3))
      (codes " PUT")
      (create_view (some 1) (some 4))
    ≡ compare_vs (codes "GET /") (create_view (some 0) (some 3)) (codes "PUT")
compare_vv-compare_vs_example =
    compare_vv-compare_vs [] (codes "GET") (codes " /") (codes " ") (codes "PUT") [] 0 3 1 4 refl
      refl refl refl
