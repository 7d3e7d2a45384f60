-- ===== src/Host/Promises/Grows.antt =====
-- mod.rs, `build_promise_hosts`: what calls that schedule promises leave alone.
use near_mock.Base.{
  ℕ, zero, suc, ◌≡◌, refl, ap, subst, ◌∙◌, Bool, false, List, [], ◌∷◌, ◌++◌, Option, none, Bytes,
  starts_with,
}
use near_mock.Base.{ℕ_eq, bytes_Key}
use near_mock.Base.Map.{Map, lookup}
use near_mock.Promise.{PAction, PromiseBatch, World, ExecCtx, Results, contract_of}
use near_mock.Promise.Execute.Calls.{Extends, Extends-trans}
use near_mock.Host.Storage.Confined.{belongs}
use near_mock.Host.Promises.{add_action, yield_prefix}

-- The memory of receipts, the contexts and the queue.
abbrev pub Marks : Type 0
Marks =
    Option ExecCtx
    × Map ℕ Results
    × List ℕ
    × Results
    × Results
    × List ℕ
    × List Bytes
    × Option ℕ
    × List PromiseBatch
    × Bool

abbrev pub marks : World → Marks
marks w = (
  w.exec_ctx, w.outcomes, w.executed, w.promise_results, w.mirror, w.fail_receipts, w.receipt_traps,
  w.current_deposit, w.receipt_queue, w.defer_receipts,
)

-- Nothing outside of the account changed, but for the handles of yields.
abbrev pub SameButYields : Bytes → Map Bytes Bytes → Map Bytes Bytes → Type 0
SameButYields acct m n =
    (k : Bytes)
    → belongs acct k ≡ false
    → starts_with k yield_prefix ≡ false
    → lookup k n ≡ lookup k m

-- Batches are pushed or get actions, and nothing outside of the running contract changes.
abbrev pub Grows : World → World → Type 0
Grows w w' =
    SameButYields (contract_of w.exec_ctx) w.st.storage w'.st.storage
    × (marks w' ≡ marks w)
    × Extends w.dag w'.dag

-- No promise is returned where none was.
abbrev pub Unreturned : World → World → Type 0
Unreturned w w' = w.pending_return ≡ none → w'.pending_return ≡ none

abbrev pub GrowsQuietly : World → World → Type 0
GrowsQuietly w w' = Grows w w' × Unreturned w w'

pub Extends-refl : (dag : List PromiseBatch) → Extends dag dag
Extends-refl dag j b e = (b, e, refl)

pub Grows-refl : (w : World) → Grows w w
Grows-refl w = ((λ k out y. refl), refl, Extends-refl w.dag)

pub Grows-trans : (a b c : World) → Grows a b → Grows b c → Grows a c
Grows-trans a b c h k =
    let later =
      subst (λ acct. SameButYields acct b.st.storage c.st.storage) (ap (λ f. contract_of f.0) h.1)
        k.0 in
    (
      (λ key out y. later key out y ∙ h.0 key out y),
      k.1 ∙ h.1,
      Extends-trans a.dag b.dag c.dag h.2 k.2,
    )

pub GrowsQuietly-refl : (w : World) → GrowsQuietly w w
GrowsQuietly-refl w = (Grows-refl w, (λ p. p))

pub GrowsQuietly-trans : (a b c : World) → GrowsQuietly a b → GrowsQuietly b c → GrowsQuietly a c
GrowsQuietly-trans a b c h k = (Grows-trans a b c h.0 k.0, (λ p. k.1 (h.1 p)))

pub Extends-append : (dag more : List PromiseBatch) → Extends dag (dag ++ more)
Extends-append [] more j b e = cc
Extends-append (x ∷ dag) more zero b e = (b, e, refl)
Extends-append (x ∷ dag) more (suc j) b e = Extends-append dag more j b e

pub Extends-add_action :
    (idx : ℕ) (a : PAction) (dag : List PromiseBatch) → Extends dag (add_action idx a dag)
Extends-add_action idx a [] j b e = cc
Extends-add_action zero a (x ∷ dag) zero b e = (record x { actions = _ }, refl, cc)
Extends-add_action zero a (x ∷ dag) (suc j) b e = (b, e, refl)
Extends-add_action (suc idx) a (x ∷ dag) zero b e = (b, e, refl)
Extends-add_action (suc idx) a (x ∷ dag) (suc j) b e = Extends-add_action idx a dag j b e
