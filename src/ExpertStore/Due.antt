-- ===== src/ExpertStore/Due.antt =====
-- expert/expert_store.cpp, `prefetch_worker_loop`: the experts that a request still has to bring, or
-- that are cached, from one step to the next.
use desiree_ia.Prelude.{
  ℕ, true, Option, none, some, List, [], ◌∷◌, ◌≡◌, sym, ap, ◌∙◌, inl, inr, ◌⊎◌,
}
use mathlib.Core.Path.{subst}
use desiree_ia.HybridTier.{Floats, number_key}
use desiree_ia.HybridTier.Keys.{make_key}
use desiree_ia.ExpertStore.{Sources, load_data, has, insert_locked}
use desiree_ia.ExpertStore.Threads.{
  Worker, waiting, checking, loading, inserting, Place, System, all_parts,
}
use desiree_ia.ExpertStore.Asked.{Asked, PlaceAsked-all_parts, Grown}

-- Cached, or still to be asked for.
abbrev pub Due : System → Worker → ℕ → Type 0
Due sys w k = Asked k w ⊎ (has k sys.store.order ≡ true)

-- From the parts of an index that is done to the next index.
pub still_next :
    (sys : System) (layer idx : ℕ) (idxs : List ℕ) (k : ℕ)
    → Due sys (checking (record { layer = layer; idxs = idx ∷ idxs; parts = [] })) k
    → Due sys (checking (record { layer = layer; idxs = idxs; parts = all_parts })) k
still_next sys layer idx idxs k (inl (inl none_left)) = absurd none_left
still_next sys layer idx idxs k (inl (inr a)) = inl (PlaceAsked-all_parts k layer idxs a)
still_next sys layer idx idxs k (inr h) = inr h

-- The part at the front is cached, or is to be loaded.
pub still_cached :
    (sys : System) (layer idx part : ℕ) (idxs parts : List ℕ) (k : ℕ)
    → has (make_key layer idx part) sys.store.order ≡ true
    → Due sys (checking (record { layer = layer; idxs = idx ∷ idxs; parts = part ∷ parts })) k
    → Due sys (checking (record { layer = layer; idxs = idx ∷ idxs; parts = parts })) k
still_cached sys layer idx part idxs parts k e (inl (inl (inl same))) =
    inr (subst (λ j. has j sys.store.order ≡ true) same e)
still_cached sys layer idx part idxs parts k e (inl (inl (inr a))) = inl (inl a)
still_cached sys layer idx part idxs parts k e (inl (inr a)) = inl (inr a)
still_cached sys layer idx part idxs parts k e (inr h) = inr h

pub still_loading :
    (sys : System) (layer idx part : ℕ) (idxs parts : List ℕ) (k : ℕ)
    → Due sys (checking (record { layer = layer; idxs = idx ∷ idxs; parts = part ∷ parts })) k
    → Due sys
        (loading
          (make_key layer idx part)
          (record { layer = layer; idxs = idx ∷ idxs; parts = parts }))
        k
still_loading sys layer idx part idxs parts k (inl (inl (inl same))) = inl (inl same)
still_loading sys layer idx part idxs parts k (inl (inl (inr a))) = inl (inr (inl a))
still_loading sys layer idx part idxs parts k (inl (inr a)) = inl (inr (inr a))
still_loading sys layer idx part idxs parts k (inr h) = inr h

-- An expert that cannot be read is passed over.
pub still_unread :
    (sources : Sources) (sys : System) (key : ℕ) (p : Place) (k : ℕ) (content : Floats)
    → load_data sources key ≡ none
    → load_data sources k ≡ some content
    → Due sys (loading key p) k
    → Due sys (checking p) k
still_unread sources sys key p k content e l (inl (inl same)) =
    absurd (not_read (sym e ∙ ap (load_data sources) same ∙ l))
  where
    not_read : ◌≡◌ {A = Option Floats} none (some content) → ⊥
    not_read h = cc
still_unread sources sys key p k content e l (inl (inr a)) = inl a
still_unread sources sys key p k content e l (inr h) = inr h

pub still_inserted :
    (sys : System) (key : ℕ) (content : Floats) (p : Place) (k : ℕ)
    → Grown sys.store key (insert_locked sys.store key content)
    → Due sys (inserting key content p) k
    → Due (record sys { store = insert_locked sys.store key content }) (checking p) k
still_inserted sys key content p k grown (inl (inl same)) = inr (grown.3 k (inl same))
still_inserted sys key content p k grown (inl (inr a)) = inl a
still_inserted sys key content p k grown (inr h) = inr (grown.3 k (inr h))

pub still_waiting : (sys : System) (k : ℕ) → Due sys waiting k → has k sys.store.order ≡ true
still_waiting sys k (inl a) = absurd a
still_waiting sys k (inr h) = h
