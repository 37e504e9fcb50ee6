-- ===== src/BatchPages/Promises.antt =====
-- What the page of a batch promises about its own refreshing.
use profit_decision_engine.Prelude.{none, some, ◌≡◌, ◌↔◌, ◌⊎◌, refl, inl, inr, ◌==◌, ap}
use profit_decision_engine.Batches.{BatchStatus, received, processing, ready, failed}
use profit_decision_engine.BatchPages.{batch_interval}
use profit_decision_engine.BatchPages.View.{next_step}

-- The page stops asking for the batch exactly when it is ready or failed; and the failed batch is the
-- one for which it promises to refresh by itself all the same.
pub batch_interval-next_step :
    (status : BatchStatus)
    → ((batch_interval (some status) ≡ none) ↔ ((status ≡ ready) ⊎ (status ≡ failed)))
      × (((batch_interval (some status) ≡ none) × ((next_step status).1 ≡ "页面会自动刷新当前处理阶段。"))
          ↔ (status ≡ failed))
unfolding batch_interval next_step
batch_interval-next_step received =
    (((λ h. cc), (λ h. elim h [ inl e ↦ cc | inr e ↦ cc ])), ((λ h. cc), (λ h. cc)))
batch_interval-next_step processing =
    (((λ h. cc), (λ h. elim h [ inl e ↦ cc | inr e ↦ cc ])), ((λ h. cc), (λ h. cc)))
batch_interval-next_step ready =
    (((λ h. inl refl), (λ h. refl)), ((λ h. cc (ap (λ s. s == "页面会自动刷新当前处理阶段。") h.1)), (λ h. cc)))
batch_interval-next_step failed =
    (((λ h. inr refl), (λ h. refl)), ((λ h. refl), (λ h. (refl, refl))))
