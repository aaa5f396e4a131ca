-- ===== src/Cluster/Registry.antt =====
-- When the registry is right: it holds the worker of each registered connection, and no other. The
-- connections and the registry are seen as functions here.
pub mod Live
pub mod Dispatch
use fusillade.Prelude.{
  inl, inr, Bool-cases, ℕ, ◌≡◌, ◌≢◌, refl, sym, ap, ◌∙◌, Bool, true, false, Option, none, some,
  Text, arith, text_eq, text_eq_refl, text_eq_iff, ◌==◌, if◌then◌else◌, ==_iff,
}
use fusillade.Cluster.{WorkerInfo}

module _ {S : Type 0} where
  -- The worker of a registered connection stands in the registry, a worker of the registry has a
  -- registered connection, and no two of these have workers of one name.
  pub record IsLive (r : ℕ → Option (WorkerInfo S)) (g : Text → Option (WorkerInfo S))
      : Type 0 where
    pub listed : (n : ℕ) (w : WorkerInfo S) → r n ≡ some w → g w.id ≡ some w
    pub served :
        (id : Text) (w : WorkerInfo S) → g id ≡ some w → (w.id ≡ id) × (n : ℕ) × (r n ≡ some w)
    pub distinct :
        (n m : ℕ) (v w : WorkerInfo S) → r n ≡ some v → r m ≡ some w → v.id ≡ w.id → n ≡ m

module _ {S : Type 0} (r : ℕ → Option (WorkerInfo S)) (g : Text → Option (WorkerInfo S)) (n : ℕ)
    (w : WorkerInfo S) (l : IsLive r g) where
  add_listed :
      ((m : ℕ) (v : WorkerInfo S) → r m ≡ some v → v.id ≢ w.id)
      → (m : ℕ) (v : WorkerInfo S) → (if n == m then some w else r m) ≡ some v
      → (if text_eq w.id v.id then some w else g v.id) ≡ some v
  add_listed f m v e =
      ground (arith, ==_iff n m, text_eq_iff w.id v.id, l.listed m v, f m v, text_eq_refl w.id)

  add_served :
      r n ≡ none
      → ((m : ℕ) (v : WorkerInfo S) → r m ≡ some v → v.id ≢ w.id)
      → (id : Text) (v : WorkerInfo S) → (if text_eq w.id id then some w else g id) ≡ some v
      → (v.id ≡ id) × (m : ℕ) × ((if n == m then some w else r m) ≡ some v)
  add_served z f id v e = elim (Bool-cases (text_eq w.id id)) [
    | inl t ↦ (ground (arith, text_eq_iff w.id id, t, e), n, ground (arith, ==_iff n n, t, e))
    | inr t ↦
        let (q, m, k) = l.served id v (ground (arith, t, e)) in
        (q, m, ground (arith, ==_iff n m, z, k))
  ]

  add_distinct :
      ((m : ℕ) (v : WorkerInfo S) → r m ≡ some v → v.id ≢ w.id)
      → (i j : ℕ) (u v : WorkerInfo S) → (if n == i then some w else r i) ≡ some u
      → (if n == j then some w else r j) ≡ some v
      → u.id ≡ v.id
      → i ≡ j
  add_distinct f i j u v e d q =
      ground (arith, ==_iff n i, ==_iff n j, l.distinct i j u v, f i u, f j v)

  remove_listed :
      r n ≡ some w
      → (m : ℕ) (v : WorkerInfo S) → (if n == m then none else r m) ≡ some v
      → (if text_eq w.id v.id then none else g v.id) ≡ some v
  remove_listed h m v e =
      ground (arith, ==_iff n m, text_eq_iff w.id v.id, l.listed m v, l.distinct n m w v)

  remove_served :
      r n ≡ some w
      → (id : Text) (v : WorkerInfo S) → (if text_eq w.id id then none else g id) ≡ some v
      → (v.id ≡ id) × (m : ℕ) × ((if n == m then none else r m) ≡ some v)
  remove_served h id v e =
      let (q, m, k) = l.served id v (ground (arith, e)) in
      (q, m, ground (arith, ==_iff n m, h, k, q, e, text_eq_iff w.id id))

  remove_distinct :
      (i j : ℕ) (u v : WorkerInfo S)
      → (if n == i then none else r i) ≡ some u
      → (if n == j then none else r j) ≡ some v
      → u.id ≡ v.id
      → i ≡ j
  remove_distinct i j u v e d q = ground (arith, ==_iff n i, ==_iff n j, l.distinct i j u v)

  -- a connection that registers under a new name
  pub add-IsLive :
      r n ≡ none
      → ((m : ℕ) (v : WorkerInfo S) → r m ≡ some v → v.id ≢ w.id)
      → IsLive
          (λ m. if n == m then some w else r m)
          (λ id. if text_eq w.id id then some w else g id)
  add-IsLive z f = record {
    listed = add_listed f;
    served = add_served z f;
    distinct = add_distinct f;
  }

  -- a registered connection that ends
  pub remove-IsLive :
      r n ≡ some w
      → IsLive (λ m. if n == m then none else r m) (λ id. if text_eq w.id id then none else g id)
  remove-IsLive h = record {
    listed = remove_listed h;
    served = remove_served h;
    distinct = remove_distinct;
  }
