-- ===== src/Server/Flows.antt =====
-- The map of downstream flows and the flows that run: an invariant, and the operations that keep it.
use Prim.Native.String.{String}
use mathlib.Core.Option.{some-injective}
use qoe_test_harness.Prelude.{
  ℕ, suc, ◌<◌, ◌≡◌, ◌≢◌, ◌⊎◌, inl, inr, refl, sym, ap, subst, ◌∙◌, true, false, some, List, ◌∷◌,
  ◌==◌, arith, Bool-cases, Option-cases, ==_iff,
}
use qoe_test_harness.Prelude.Maps.{
  lookup, insert, delete, adjust, nat_key, text_key, lookup-adjust, lookup-delete_inv,
  lookup-delete_other, lookup-insert_same, lookup-insert_other, lookup-adjust_inv,
  lookup-adjust_other, key-cases,
}
use qoe_test_harness.Server.{Addr, Server, DownFlow, listen, cancel, start_down, stop_down, retire}

module _ (addr_string : Addr → String) where
  -- Each entry of the map is a flow that runs for that source and is not cancelled, each such flow has
  -- its entry, and no flow has the number of one to come.
  pub record IsServer (s : Server) : Type 0 where
    pub registered :
        (k : String) (id : ℕ)
        → lookup k s.downs ≡ some id
        → (f : DownFlow) × (lookup id s.flows ≡ some f)
          × (addr_string f.src ≡ k)
          × (f.cancelled ≡ false)
    pub live :
        (id : ℕ) (f : DownFlow)
        → lookup id s.flows ≡ some f
        → f.cancelled ≡ false
        → lookup (addr_string f.src) s.downs ≡ some id
    pub fresh : (id : ℕ) (f : DownFlow) → lookup id s.flows ≡ some f → id < s.next_flow

  abbrev Entry : List (ℕ × DownFlow) → String → ℕ → Type 0
  Entry flows k id =
      (f : DownFlow) × (lookup id flows ≡ some f) × (addr_string f.src ≡ k) × (f.cancelled ≡ false)

  pub listen-IsServer : (secret : List ℕ) → IsServer (listen secret)
  unfolding listen lookup
  listen-IsServer secret = record {
    registered = λ k id e. cc;
    live = λ id f e c. cc;
    fresh = λ id f e. cc;
  }

  module _ (s : Server) (w : IsServer s) where
    module _ (key : String) (df : ℕ) (p : lookup key s.downs ≡ some df) where
      -- What still runs after the flow `df` of the source `key` is cancelled.
      still_live :
          (id : ℕ) (f : DownFlow)
          → lookup id (adjust df cancel s.flows) ≡ some f
          → f.cancelled ≡ false
          → (key ≢ addr_string f.src) × (lookup (addr_string f.src) s.downs ≡ some id)
      still_live id f e c = elim (lookup-adjust_inv df id cancel f s.flows e) [
        | inl (same, g, q, r) ↦ cc (r, c)
        | inr (other, q) ↦
            let l = w.live id f q c in
            ((λ k. other (some-injective df id (sym p ∙ ap (λ x. lookup x s.downs) k ∙ l))), l)
      ]

      -- The entries of the other sources are untouched.
      still_registered :
          (k : String) (id : ℕ)
          → key ≢ k
          → lookup k s.downs ≡ some id
          → Entry (adjust df cancel s.flows) k id
      still_registered k id ne e =
          let (f, q, r, c) = w.registered k id e in
          let (g, q', r', c') = w.registered key df p in
          (
            f,
            lookup-adjust_other df id cancel s.flows f (λ same. ne (cc (q, q', r, r', same))) q,
            r,
            c,
          )

    pub stop_down-IsServer : (key : String) → IsServer (stop_down addr_string s key)
    unfolding stop_down
    stop_down-IsServer key = elim (Option-cases (lookup key s.downs)) [
      | inl n ↦ rw (n, stop_down) w
      | inr (df, p) ↦
          rw (p, stop_down)
            (record {
              registered = λ k id e.
                  let (ne, q) = lookup-delete_inv key k s.downs id e in
                  still_registered key df p k id ne q;
              live = λ id f e c.
                  let (ne, q) = still_live key df p id f e c in
                  lookup-delete_other key (addr_string f.src) s.downs ne ∙ q;
              fresh = λ id f e.
                  let (g, q, r) = lookup-adjust df id cancel f s.flows e in w.fresh id g q;
            })
    ]

    -- A new flow, when the map's other entries and the flows that they name are as before.
    added-IsServer :
        (flows : List (ℕ × DownFlow)) (df : DownFlow)
        → df.cancelled ≡ false
        → ((k : String) (id : ℕ)
            → addr_string df.src ≢ k
            → lookup k s.downs ≡ some id
            → Entry flows k id)
        → ((id : ℕ) (f : DownFlow)
            → lookup id flows ≡ some f
            → (id < s.next_flow)
              × ((f.cancelled ≡ true)
                  ⊎ ((addr_string df.src ≢ addr_string f.src)
                      × (lookup (addr_string f.src) s.downs ≡ some id))))
        → IsServer (record s {
          downs = insert (addr_string df.src) s.next_flow s.downs;
          flows = (s.next_flow, df) ∷ flows;
          next_flow = suc s.next_flow;
        })
    unfolding lookup
    added-IsServer flows df on others running = record {
      registered = λ k id e. elim (key-cases (addr_string df.src) k) [
        | inl same ↦
            let n : s.next_flow ≡ id = some-injective s.next_flow id (
              sym (lookup-insert_same (addr_string df.src) s.next_flow s.downs)
              ∙ ap (λ x. lookup x (insert (addr_string df.src) s.next_flow s.downs)) same
              ∙ e) in
            (df, rw ((==_iff s.next_flow id).1 n) refl, same, on)
        | inr other ↦
            let (f, q, r, c) =
              others k id other
                (sym (lookup-insert_other (addr_string df.src) k s.next_flow s.downs other) ∙ e) in
            let old : (s.next_flow == id) ≡ false = ground (arith, (running id f q).0) in
            (f, rw old q, r, c)
      ];
      live = λ id f e c. elim (Bool-cases (s.next_flow == id)) [
        | inl new ↦
            subst
              (λ g.
                lookup (addr_string g.src) (insert (addr_string df.src) s.next_flow s.downs)
                ≡ some id)
              (some-injective df f (rw new at e))
              (lookup-insert_same (addr_string df.src) s.next_flow s.downs
                ∙ ap some ((==_iff s.next_flow id).0 new))
        | inr old ↦ elim ((running id f (rw old at e)).1) [
          | inl off ↦ cc (off, c)
          | inr (ne, l) ↦
              lookup-insert_other (addr_string df.src) (addr_string f.src) s.next_flow s.downs ne
              ∙ l
        ]
      ];
      fresh = λ id f e. elim (Bool-cases (s.next_flow == id)) [
        | inl new ↦ omega (arith, (==_iff s.next_flow id).0 new)
        | inr old ↦ omega (arith, (running id f (rw old at e)).0)
      ];
    }

    pub start_down-IsServer :
        (src : Addr) (rate lifetime marking : ℕ)
        → IsServer (start_down addr_string s src rate lifetime marking)
    unfolding start_down
    start_down-IsServer src rate lifetime marking =
        elim (Option-cases (lookup (addr_string src) s.downs)) [
          | inl n ↦
              rw (n, start_down)
                (added-IsServer s.flows df refl (λ k id ne e. w.registered k id e)
                  (λ id f e. (
                    w.fresh id f e,
                    elim (Bool-cases f.cancelled) [
                      | inl off ↦ inl off
                      | inr on ↦
                          let l = w.live id f e on in
                          inr ((λ k. cc (n, ap (λ x. lookup x s.downs) k, l)), l)
                    ],
                  )))
          | inr (old, p) ↦
              rw (p, start_down)
                (added-IsServer (adjust old cancel s.flows) df refl
                  (still_registered (addr_string src) old p)
                  (λ id f e.
                    let (g, q, r) = lookup-adjust old id cancel f s.flows e in
                    (
                      w.fresh id g q,
                      elim (Bool-cases f.cancelled) [
                        | inl off ↦ inl off
                        | inr on ↦ inr (still_live (addr_string src) old p id f e on)
                      ],
                    )))
        ]
      where
        df : DownFlow
        df = record {
          src = src;
          rate = rate;
          lifetime = lifetime;
          marking = marking;
          cancelled = false;
        }

    removed-IsServer :
        (df : ℕ) (downs : List (String × ℕ))
        → ((k : String) (id : ℕ)
            → lookup k downs ≡ some id
            → (lookup k s.downs ≡ some id) × (df ≢ id))
        → ((id : ℕ) (f : DownFlow)
            → lookup id s.flows ≡ some f
            → f.cancelled ≡ false
            → df ≢ id
            → lookup (addr_string f.src) downs ≡ some id)
        → IsServer (record s { downs = downs; flows = delete df s.flows })
    removed-IsServer df downs others running = record {
      registered = λ k id e.
          let (q, ne) = others k id e in
          let (f, r, a, c) = w.registered k id q in
          (f, lookup-delete_other df id s.flows ne ∙ r, a, c);
      live = λ id f e c. let (ne, q) = lookup-delete_inv df id s.flows f e in running id f q c ne;
      fresh = λ id f e. w.fresh id f (lookup-delete_inv df id s.flows f e).1;
    }

    pub retire-IsServer : (df : ℕ) → IsServer (retire addr_string s df)
    unfolding retire
    retire-IsServer df = elim (Option-cases (lookup df s.flows)) [
      | inl n ↦ rw (n, retire) w
      | inr (f, p) ↦ elim (Option-cases (lookup (addr_string f.src) s.downs)) [
        | inl n ↦
            rw (p, n, retire)
              (removed-IsServer df s.downs
                (λ k id e.
                  (e, λ same. let (g, q, a, c) = w.registered k id e in cc (n, e, q, p, same, a)))
                (λ id g q c ne. w.live id g q c))
        | inr (mine, m) ↦ elim (Bool-cases (mine == df)) [
          | inl its ↦
              rw (p, m, retire)
                (rw its (
                  removed-IsServer df (delete (addr_string f.src) s.downs)
                    (λ k id e.
                      let (ne, q) = lookup-delete_inv (addr_string f.src) k s.downs id e in
                      (
                        q,
                        λ same. let (g, r, a, c) = w.registered k id q in ne (cc (r, p, same, a)),
                      ))
                    (λ id g q c ne.
                      let l = w.live id g q c in
                      lookup-delete_other (addr_string f.src) (addr_string g.src) s.downs (λ k. ne (
                        sym ((==_iff mine df).0 its)
                        ∙ some-injective mine id (sym m ∙ ap (λ x. lookup x s.downs) k ∙ l)))
                      ∙ l)))
          | inr newer ↦
              rw (p, m, retire)
                (rw newer (
                  removed-IsServer df s.downs
                    (λ k id e. (
                      e,
                      λ same.
                          let (g, q, a, c) = w.registered k id e in
                          let here : mine ≡ df = cc (q, p, same, a, e, m) in
                          cc (newer, (==_iff mine df).1 here),
                    ))
                    (λ id g q c ne. w.live id g q c)))
        ]
      ]
    ]
