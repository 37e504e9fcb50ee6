-- ===== src/Api/Examples.antt =====
-- The contract of a command with concrete arguments.
use profit_decision_engine.Prelude.{some, refl}
use profit_decision_engine.Api.Calls.{Call, override, upload, IsDeclared, request_of-IsDeclared}

abbrev overriding : Call
overriding = override "l1" "observe" (some "restock") "seasonal" 4

abbrev uploading : Call
uploading = upload (record {
  business_unit = "玩具事业部";
  period_start = "2026-05-01";
  period_end = "2026-05-31";
  cutoff_date = "2026-05-31";
  file = "content";
})

upload_test : IsDeclared (λ s. s) "k1" uploading
upload_test = request_of-IsDeclared (λ s. s) "k1" uploading refl

request_of-IsDeclared_example : IsDeclared (λ s. s) "k1" overriding
request_of-IsDeclared_example = request_of-IsDeclared (λ s. s) "k1" overriding (refl, refl)
