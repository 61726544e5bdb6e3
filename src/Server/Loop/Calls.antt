-- ===== src/Server/Loop/Calls.antt =====
-- A call of a handler on one of the connections of the event loop of bjoern/server.c.

use bjoern.Common.{
  ℕ, ◌≡◌, ◌≢◌, refl, sym, ◌∙◌, ap, subst, true, false, Option, none, some, List, [], ◌∷◌, All,
  arith, ◌==◌, if◌then◌else◌, Bool-cases, inl, inr,
}
use bjoern.Server.{Watcher, stopped, reading, writing, Connection}
use bjoern.Server.Loop.{put, kept, on_connection}

-- The connection of a descriptor.
unfoldable pub find : ℕ → List (ℕ × Connection) → Option Connection
find fd [] = none
find fd ((i, c) ∷ cs) = if i == fd then some c else find fd cs

-- A call on one descriptor's connection: the connection is there, and the call returns or faults,
-- or another one comes first.
pub hit_put :
    (fd i : ℕ) (f : Connection → Option Connection) (c d : Connection) (cs : List (ℕ × Connection))
    → (i == fd) ≡ true
    → f c ≡ some d
    → on_connection fd f ((i, c) ∷ cs) ≡ some (put i d cs)
unfolding on_connection
hit_put fd i f c d cs hit e = rw (hit, e) refl

pub hit_fault :
    (fd i : ℕ) (f : Connection → Option Connection) (c : Connection) (cs : List (ℕ × Connection))
    → (i == fd) ≡ true
    → f c ≡ none
    → on_connection fd f ((i, c) ∷ cs) ≡ none
unfolding on_connection
hit_fault fd i f c cs hit e = rw (hit, e) refl

pub miss :
    (fd i : ℕ) (f : Connection → Option Connection) (c : Connection) (cs : List (ℕ × Connection))
    {res : Option (List (ℕ × Connection))}
    → (i == fd) ≡ false
    → on_connection fd f cs ≡ res
    → on_connection fd f ((i, c) ∷ cs) ≡ kept i c res
unfolding on_connection
miss fd i f c cs other e = rw (other, e) refl

-- A fault on the connection of a descriptor is a fault of the loop.
pub on_connection_fault :
    (fd : ℕ) (f : Connection → Option Connection) (c : Connection) (cs : List (ℕ × Connection))
    → find fd cs ≡ some c
    → f c ≡ none
    → on_connection fd f cs ≡ none
unfolding find on_connection
on_connection_fault fd f c [] here e = absurd (let bad : none ≡ some c = here in cc)
on_connection_fault fd f c ((i, d) ∷ cs) here e = elim (Bool-cases (i == fd)) [
  | inl hit ↦
      let q : some d ≡ some c = ground arith in
      let same : d ≡ c = cc in hit_fault fd i f d cs hit (ap f same ∙ e)
  | inr other ↦
      let later : find fd cs ≡ some c = ground arith in
      miss fd i f d cs other (on_connection_fault fd f c cs later e)
]

-- A connection that is found takes the call.
module _ (P : Connection → Type 0) where
  abbrev pub AllOf : List (ℕ × Connection) → Type 0
  AllOf cs = All (λ (p : ℕ × Connection). P p.1) cs

  put-AllOf :
      (i : ℕ) (d : Connection) (cs : List (ℕ × Connection))
      → (d.watcher ≢ stopped → P d)
      → AllOf cs
      → AllOf (put i d cs)
  put-AllOf i d cs p all = go d.watcher refl
    where
      go : (w : Watcher) → d.watcher ≡ w → AllOf (elim w [ stopped ↦ cs | _ ↦ (i, d) ∷ cs ])
      go stopped e = all
      go reading e = (p (λ at. let bad : reading ≡ stopped = sym e ∙ at in absurd cc), all)
      go writing e = (p (λ at. let bad : writing ≡ stopped = sym e ∙ at in absurd cc), all)

  pub on_connection-AllOf :
      (fd : ℕ) (f : Connection → Option Connection) (c c' : Connection) (cs : List (ℕ × Connection))
      → find fd cs ≡ some c
      → f c ≡ some c'
      → (c'.watcher ≢ stopped → P c')
      → AllOf cs
      → (cs' : List (ℕ × Connection)) × (on_connection fd f cs ≡ some cs') × AllOf cs'
  unfolding find
  on_connection-AllOf fd f c c' [] here step p all = absurd (let bad : none ≡ some c = here in cc)
  on_connection-AllOf fd f c c' ((i, b) ∷ cs) here step p all = elim (Bool-cases (i == fd)) [
    | inl hit ↦
        let same : b ≡ c = ground arith in
        (put i c' cs, hit_put fd i f b c' cs hit (ap f same ∙ step), put-AllOf i c' cs p all.1)
    | inr other ↦
        let rest : find fd cs ≡ some c = ground arith in
        let (cs', called, all') = on_connection-AllOf fd f c c' cs rest step p all.1 in
        ((i, b) ∷ cs', miss fd i f b cs other called, (all.0, all'))
  ]

  pub find-AllOf :
      (fd : ℕ) (c : Connection) (cs : List (ℕ × Connection)) → find fd cs ≡ some c → AllOf cs → P c
  unfolding find
  find-AllOf fd c [] here all = absurd (let bad : none ≡ some c = here in cc)
  find-AllOf fd c ((i, b) ∷ cs) here all = elim (Bool-cases (i == fd)) [
    | inl hit ↦ (let same : b ≡ c = ground arith in subst P same all.0)
    | inr other ↦ find-AllOf fd c cs (ground arith) all.1
  ]
