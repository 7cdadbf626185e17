-- ===== src/Follow/Bounds.antt =====
-- How far a redirect is followed.
use tessaridb_sdk_python.Prelude.{
  ℕ, zero, suc, ◌≤◌, ◌≡◌, refl, Bool-cases, inl, inr, Option, none, some, List, [], ◌∷◌, ltb,
  length, arith,
}
use tessaridb_sdk_python.Result.{Str, Result, Error, ok, err}
use tessaridb_sdk_python.Frames.Socket.{Socket}
use tessaridb_sdk_python.Connection.Messages.{Reply, Elsewhere}
use tessaridb_sdk_python.Connection.Session.{Connection, Parameters}
use tessaridb_sdk_python.Follow.Selection.{selection}
use tessaridb_sdk_python.Follow.Hops.{
  most_hops, Followed, halt, with_dialled, settle, proceed, hop, follow, from_selection, followed,
}

-- No epoch is below the one before it, nor the first below `floor`.
unfoldable pub Ascending : ℕ → List Elsewhere → Type 0
Ascending floor [] = Unit
Ascending floor (redirect ∷ redirects) =
    (floor ≤ redirect.epoch) × Ascending redirect.epoch redirects

-- At most `hops` nodes were dialled, in the order of their epochs; an exception left the connection
-- as it was.
pub record Bounded (hops floor : ℕ) (conn : Connection) (f : Followed) : Type 0 where
  pub few : length f.dialled ≤ hops
  pub ascending : Ascending floor f.dialled
  pub unmoved : {e : Error} → f.result ≡ err e → f.conn ≡ conn

halt-Bounded :
    (hops floor : ℕ) (conn : Connection) (e : Error) → Bounded hops floor conn (halt e [] conn)
unfolding halt Ascending
halt-Bounded hops floor conn e = record { few = omega arith; ascending = tt; unmoved = λ _. refl }

settle-Bounded :
    (more : Elsewhere → Followed) (redirect : Elsewhere) (left floor : ℕ) (there conn : Connection)
    (reply : Reply) (next : Option Elsewhere)
    → floor ≤ redirect.epoch
    → ((next : Elsewhere) → Bounded left redirect.epoch conn (more next))
    → Bounded (suc left) floor conn (settle more redirect there conn reply next)
unfolding settle with_dialled Ascending
settle-Bounded more redirect left floor there conn reply (some next) le rest = record {
  few = omega (arith, (rest next).few);
  ascending = (le, (rest next).ascending);
  unmoved = (rest next).unmoved;
}
settle-Bounded more redirect left floor there conn reply none le rest = record {
  few = omega arith;
  ascending = (le, tt);
  unmoved = λ h. cc;
}

proceed-Bounded :
    (more : Elsewhere → Followed) (redirect : Elsewhere) (left floor : ℕ) (conn : Connection)
    (r : Result Reply × Connection)
    → floor ≤ redirect.epoch
    → ((next : Elsewhere) → Bounded left redirect.epoch conn (more next))
    → Bounded (suc left) floor conn (proceed more redirect conn r)
unfolding proceed halt Ascending
proceed-Bounded more redirect left floor conn (err e, there) le rest = record {
  few = omega arith;
  ascending = (le, tt);
  unmoved = λ h. refl;
}
proceed-Bounded more redirect left floor conn (ok reply, there) le rest =
    settle-Bounded more redirect left floor there conn reply reply.redirect le rest

module _ (dial : ℕ → Str → Result Socket) (selecting script : Str) (parameters : Parameters) where
  follow-Bounded :
      (left : ℕ) (redirect : Elsewhere) (floor : ℕ) (conn : Connection)
      → Bounded left floor conn (follow dial selecting script parameters left redirect floor conn)
  unfolding follow
  follow-Bounded zero redirect floor conn = halt-Bounded _ floor conn _
  follow-Bounded (suc left) redirect floor conn = elim (Bool-cases (ltb redirect.epoch floor)) [
    | inl stale ↦ rw (stale, follow) (halt-Bounded _ floor conn _)
    | inr fresh ↦
        rw (fresh, follow)
          (proceed-Bounded _ redirect left floor conn
            (hop dial selecting script parameters left redirect conn) (ground arith)
            (λ next. follow-Bounded left next redirect.epoch conn))
  ]

module _ (dial : ℕ → Str → Result Socket) (script : Str) (parameters : Parameters)
    (first : Elsewhere) (conn : Connection) where
  followed-Bounded :
      Bounded most_hops 0 (selection conn).1 (followed dial script parameters first conn)
  unfolding followed from_selection
  followed-Bounded = from_selection-Bounded (selection conn)
    where
      from_selection-Bounded :
          (r : Result Str × Connection)
          → Bounded most_hops 0 r.1 (from_selection dial script parameters first r)
      from_selection-Bounded (err e, c) = halt-Bounded most_hops 0 c e
      from_selection-Bounded (ok selecting, c) =
          follow-Bounded dial selecting script parameters most_hops first 0 c

  -- Whatever the network and the nodes do, at most three nodes are dialled for one request, and no
  -- redirect that is followed has an epoch below that of the one before it.
  pub followed-dialled :
      (length (followed dial script parameters first conn).dialled ≤ most_hops)
      × Ascending 0 (followed dial script parameters first conn).dialled
  followed-dialled = (followed-Bounded.few, followed-Bounded.ascending)

  -- Where following a redirect raised an exception, the session goes on with the connection that it
  -- had: that on which its selection was asked for.
  pub followed-unmoved :
      (e : Error)
      → (followed dial script parameters first conn).result ≡ err e
      → (followed dial script parameters first conn).conn ≡ (selection conn).1
  followed-unmoved e h = followed-Bounded.unmoved h
