-- ===== src/TestList/Watching.antt =====
-- web/src/components/test-list.tsx: the tests that are shown as running.
use meergate.Base.{
  ◌≡◌, refl, arith, inl, inr, String, Bool, true, false, List, [], ◌∷◌, ◌++◌, filter, All, eq_refl,
  Bool-cases,
}
use meergate.Data.{TestItem}
use meergate.TestList.{Watch, has_text, run_test, is_running, on_tick, polls}

has_text-filter_out :
    (p : String → Bool) (id : String) (ids : List String)
    → has_text ids id ≡ false
    → has_text (filter p ids) id ≡ false
has_text-filter_out p id [] h = refl
has_text-filter_out p id (x ∷ xs) h = elim (Bool-cases (p x)) [
  | inl e ↦ rw e (ground (arith, has_text-filter_out p id xs))
  | inr e ↦ rw e (ground (arith, has_text-filter_out p id xs))
]

has_text_added : (id : String) (ids : List String) → has_text (ids ++ id ∷ []) id ≡ true
has_text_added id [] = rw (eq_refl id) refl
has_text_added id (x ∷ xs) = rw (has_text_added id xs) (ground arith)

filter-none :
    (p : String → Bool) (ids : List String) → All (λ id. p id ≡ false) ids → filter p ids ≡ []
filter-none p [] h = refl
filter-none p (x ∷ xs) h = rw h.0 (filter-none p xs h.1)

-- A test that is started while an answer to the interval is awaited is not shown as running once
-- the answer is there, even if the server says that it runs.
pub on_tick-drops :
    (fresh : List TestItem) (id : String) (w : Watch)
    → has_text w.running id ≡ false
    → (has_text (run_test id w).running id ≡ true)
      × (has_text (on_tick w.running fresh (run_test id w)).running id ≡ false)
unfolding on_tick run_test
on_tick-drops fresh id w h =
    (rw h (has_text_added id w.running), has_text-filter_out (is_running fresh) id w.running h)

-- Once no test that was running is pending in an answer, none is shown as running, and the list no
-- longer asks.
pub on_tick-stops :
    (fresh : List TestItem) (w : Watch)
    → All (λ id. is_running fresh id ≡ false) w.running
    → polls (on_tick w.running fresh w) ≡ false
unfolding on_tick
on_tick-stops fresh w h = rw (filter-none (is_running fresh) w.running h) refl
