-- ===== src/Prelude/Simulation.antt =====
-- One operation on a table and on an object in memory, side by side. The table's may be refused; both
-- may find that the thing has expired and drop it.
use mathlib.Core.Path.{◌≡◌, refl}
use mathlib.Core.Logic.{◌⊎◌}
use mathlib.Core.Bool.{Bool, true, false}
use helix_mcp_gateway.Prelude.Action.{Result, ok, err, Action, raise_if, ◌>>=◌, ◌>>◌}

module _ {E T S : Type 0} (refusal expiry : E) (Rel : T → S → Type 0) where
  -- The table's transaction was refused and changed nothing, or it answered, or raised, as the object
  -- in memory does, and the two are again related.
  abbrev pub Refines : {A : Type 0} → T → Result E A × T → Result E A × S → Type 0
  Refines t r r' = (r ≡ (err refusal, t)) ⊎ ((r.0 ≡ r'.0) × Rel r.1 r'.1)

  module _ {A : Type 0} (t : T) (s : S) where
    -- How the two may end, before the transaction is settled.
    pub data Sim : Result E A × T → Result E A × S → Type 0 where
      refused : (t' : T) (r : Result E A × S) → Sim (err refusal, t') r
      raised : (x : E) → Sim (err x, t) (err x, s)
      lapsed : (t' : T) (s' : S) → Rel t' s' → Sim (err expiry, t') (err expiry, s')
      returned : (a : A) (t' : T) (s' : S) → Rel t' s' → Sim (ok a, t') (ok a, s')

    pub raise_if-Sim :
        (c : Bool) (x : E) (m : Action E T A) (n : Action E S A)
        → (c ≡ false → Sim (m t) (n s))
        → Sim ((raise_if c x >> m) t) ((raise_if c x >> n) s)
    unfolding ◌>>=◌
    raise_if-Sim true x m n h = raised x
    raise_if-Sim false x m n h = h refl
