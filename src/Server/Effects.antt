-- ===== src/Server/Effects.antt =====
-- What a start and a stop of a flow leave behind.
use Prim.Native.String.{String}
use qoe_test_harness.Prelude.{
  ℕ, ◌≡◌, refl, ap, ◌∙◌, true, false, none, some, List, [], ◌∷◌, inl, inr, ==_iff, Option-cases,
  Bool-cases, if-true, ◌==◌, sym,
}
use mathlib.Core.Option.{some-injective}
use qoe_test_harness.Prelude.Texts.{str_eq_iff}
use qoe_test_harness.Prelude.Maps.{lookup, adjust, nat_key, text_key, lookup-insert, lookup-delete}
use qoe_test_harness.Server.{Addr, Server, Datagram, DownFlow, cancel, start_down, stop_down}

module _ (addr_string : Addr → String) (s : Server) (src : Addr) where
  -- Afterwards a flow with these values runs to the source and is not cancelled, the map has it for the
  -- source, and nothing was answered.
  pub record Starts (rate lifetime marking : ℕ) (after : Server × List Datagram) : Type 0 where
    pub id : ℕ
    pub entered : lookup (addr_string src) after.0.downs ≡ some id
    pub running :
        lookup id after.0.flows
        ≡ some (record {
          src = src;
          rate = rate;
          lifetime = lifetime;
          marking = marking;
          cancelled = false;
        })
    pub silent : after.1 ≡ []

  pub start_down-Starts :
      (rate lifetime marking : ℕ)
      → Starts rate lifetime marking (start_down addr_string s src rate lifetime marking, [])
  unfolding start_down lookup
  start_down-Starts rate lifetime marking = record {
    id = s.next_flow;
    entered =
        lookup-insert (addr_string src) (addr_string src) s.next_flow s.downs
        ∙ if-true _ _ _ ((str_eq_iff (addr_string src) (addr_string src)).1 refl);
    running = if-true _ _ _ ((==_iff s.next_flow s.next_flow).1 refl);
    silent = refl;
  }

  -- Afterwards the map has no flow for the source, the one that it had is cancelled, and nothing was
  -- answered.
  pub record Stops (after : Server × List Datagram) : Type 0 where
    pub removed : lookup (addr_string src) after.0.downs ≡ none
    pub ended :
        (id : ℕ) (f : DownFlow)
        → lookup (addr_string src) s.downs ≡ some id
        → lookup id s.flows ≡ some f
        → lookup id after.0.flows ≡ some (record f { cancelled = true })
    pub silent : after.1 ≡ []

  lookup-adjusted :
      (id : ℕ) (f : DownFlow) (m : List (ℕ × DownFlow))
      → lookup id m ≡ some f
      → lookup id (adjust id cancel m) ≡ some (record f { cancelled = true })
  unfolding lookup adjust
  lookup-adjusted id f [] e = cc
  lookup-adjusted id f ((j, g) ∷ m) e = elim (Bool-cases (j == id)) [
    | inl same ↦
        rw same (ap (λ (o : DownFlow). some (cancel o)) (some-injective g f (rw same at e)))
    | inr other ↦ rw other (lookup-adjusted id f m (rw other at e))
  ]

  pub stop_down-Stops : Stops (stop_down addr_string s (addr_string src), [])
  unfolding stop_down
  stop_down-Stops = elim (Option-cases (lookup (addr_string src) s.downs)) [
    | inl absent ↦ record {
      removed = rw (stop_down, absent) absent;
      ended = λ id f e q. cc (absent, e);
      silent = refl;
    }
    | inr (df, p) ↦ record {
      removed =
          rw (stop_down, p)
            (lookup-delete (addr_string src) (addr_string src) s.downs
              ∙ if-true _ _ _ ((str_eq_iff (addr_string src) (addr_string src)).1 refl));
      ended = λ id f e q.
          let same : df ≡ id = some-injective df id (sym p ∙ e) in
          rw (stop_down, p) (rw same (lookup-adjusted id f s.flows q));
      silent = refl;
    }
  ]
