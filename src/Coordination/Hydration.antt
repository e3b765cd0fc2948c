-- ===== src/Coordination/Hydration.antt =====
-- When the stores count as loaded: `registerHydrationCoordination` of coordination.ts and
-- `onStoreRehydrated` of ui-store.ts.
use musaed.Base.{ℕ, zero, suc, true, false, leb, ◌≡◌, ◌∙◌, ap, arith}
use musaed.Base.Int.{pos, negsuc, pred, is_nonpos}
use musaed.Store.Ui.{UiState, on_store_rehydrated}
use musaed.Coordination.{register_hydration, stores_to_hydrate}

-- `n` stores answer.
abbrev answers : ℕ → UiState → UiState
answers zero u = u
answers (suc n) u = answers n (on_store_rehydrated u)

-- A counter that is at zero or below stays there, and the flag stays set.
stays_set :
    (n m : ℕ) (u : UiState)
    → u.pending_rehydrations ≡ negsuc m
    → u.is_hydrated ≡ true
    → (answers n u).is_hydrated ≡ true
unfolding on_store_rehydrated
stays_set zero m u e h = h
stays_set (suc n) m u e h =
    stays_set n (suc m) (on_store_rehydrated u) (ap pred e) (ap (λ k. is_nonpos (pred k)) e)

counts_down :
    (n k : ℕ) (u : UiState)
    → u.pending_rehydrations ≡ pos k
    → (answers (suc n) u).is_hydrated ≡ leb k (suc n)
unfolding on_store_rehydrated
counts_down n zero u e =
    stays_set n 0 (on_store_rehydrated u) (ap pred e) (ap (λ k. is_nonpos (pred k)) e)
    ∙ ground arith
counts_down zero (suc zero) u e = ap (λ k. is_nonpos (pred k)) e ∙ ground arith
counts_down zero (suc (suc k)) u e = ap (λ k. is_nonpos (pred k)) e ∙ ground arith
counts_down (suc n) (suc k) u e = counts_down n k (on_store_rehydrated u) (ap pred e) ∙ ground arith

-- From registration on, with the stores not loaded, the flag is set exactly when four or more stores
-- have answered.
hydrated_after_four :
    (n : ℕ) (u : UiState)
    → u.is_hydrated ≡ false
    → (answers n (register_hydration u)).is_hydrated ≡ leb stores_to_hydrate n
unfolding register_hydration
hydrated_after_four zero u h = ground (arith, h)
hydrated_after_four (suc n) u h =
    counts_down n stores_to_hydrate (register_hydration u) (ground (arith, h))
