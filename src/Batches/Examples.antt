-- ===== src/Batches/Examples.antt =====
-- Tests of `latestReadyBatch`, and the theorems about it on concrete lists.
use mathlib.Core.List.{Memᴰ}
use profit_decision_engine.Prelude.{
  String, List, [], ◌∷◌, none, some, false, Bool, ◌||◌, eqb, code, arith, Bool-cases, inl, inr, All,
  ◌≡◌, refl,
}
use profit_decision_engine.Batches.{BatchSummary, is_ready, batch_key, latest_ready_batch}
use profit_decision_engine.Batches.Samples.{may, june, july, listed}
use profit_decision_engine.Batches.Latest.{
  IsNewest, latest_ready_batch-IsNewest, latest_ready_batch-eq-none_iff, latest_ready_batch_order,
}
use profit_decision_engine.Batches.Keys.{
  Earlier, latest_ready_batch-not-Earlier, HasPlainKey, NoNul,
}

abbrev reordered : List BatchSummary
reordered = june ∷ may ∷ july ∷ []

chosen : latest_ready_batch listed ≡ some june
unfolding latest_ready_batch
chosen = refl

chosen_again : latest_ready_batch reordered ≡ some june
unfolding latest_ready_batch
chosen_again = refl

latest_ready_batch-IsNewest_example : IsNewest listed june
latest_ready_batch-IsNewest_example = latest_ready_batch-IsNewest listed june chosen

latest_ready_batch-eq-none_iff_case :
    (latest_ready_batch (july ∷ []) ≡ none → All (λ b. is_ready b.status ≡ Bool.false) (july ∷ []))
    × (All (λ b. is_ready b.status ≡ Bool.false) (july ∷ [])
        → latest_ready_batch (july ∷ []) ≡ none)
latest_ready_batch-eq-none_iff_case = latest_ready_batch-eq-none_iff (july ∷ [])

to : (c : BatchSummary) → Memᴰ c listed → Memᴰ c reordered
to c (Memᴰ.head e) = Memᴰ.tail (Memᴰ.head e)
to c (Memᴰ.tail (Memᴰ.head e)) = Memᴰ.tail (Memᴰ.tail (Memᴰ.head e))
to c (Memᴰ.tail (Memᴰ.tail (Memᴰ.head e))) = Memᴰ.head e
to c (Memᴰ.tail (Memᴰ.tail (Memᴰ.tail m))) = elim m [ ]

from : (c : BatchSummary) → Memᴰ c reordered → Memᴰ c listed
from c (Memᴰ.head e) = Memᴰ.tail (Memᴰ.tail (Memᴰ.head e))
from c (Memᴰ.tail (Memᴰ.head e)) = Memᴰ.head e
from c (Memᴰ.tail (Memᴰ.tail (Memᴰ.head e))) = Memᴰ.tail (Memᴰ.head e)
from c (Memᴰ.tail (Memᴰ.tail (Memᴰ.tail m))) = elim m [ ]

latest_ready_batch_order_case : batch_key june ≡ batch_key june
latest_ready_batch_order_case =
    latest_ready_batch_order listed reordered june june to from chosen chosen_again

has_nul : String → Bool
has_nul String.[] = false
has_nul (String.◌∷◌ c s) = let rest = has_nul s in eqb (code c) 0 || rest

NoNul-of : (s : String) → has_nul s ≡ false → NoNul s
unfolding has_nul
NoNul-of String.[] h = tt
NoNul-of (String.◌∷◌ c s) h = elim (Bool-cases (eqb (code c) 0)) [
  | inl e ↦ absurd (ground arith)
  | inr e ↦ (ground arith, NoNul-of s (ground arith))
]

cutoff_test : has_nul "2026-05-31" ≡ false
unfolding has_nul
cutoff_test = refl

plain_june : HasPlainKey june
unfolding has_nul
plain_june = record {
  cutoff = NoNul-of "2026-06-30" refl;
  completion = NoNul-of "2026-07-01T08:00:00Z" refl;
}

plain_may : HasPlainKey may
unfolding has_nul
plain_may = record {
  cutoff = NoNul-of "2026-05-31" refl;
  completion = NoNul-of "2026-06-01T08:00:00Z" refl;
}

latest_ready_batch-not-Earlier_example : ¬ Earlier june may
latest_ready_batch-not-Earlier_example =
    latest_ready_batch-not-Earlier listed june may chosen (Memᴰ.head refl) refl plain_june plain_may
