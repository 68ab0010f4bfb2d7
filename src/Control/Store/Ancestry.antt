-- ===== src/Control/Store/Ancestry.antt =====
-- The walk from a team to its ancestors ends.
use casper_agops_server.Prelude.{
  ℕ, zero, suc, ◌≤◌, ◌<◌, true, Option, none, some, List, [], ◌∷◌, length, ◌≡◌, refl, inl, inr,
  arith, ◌∙◌, Bool-cases, Option-cases, ◌=?◌,
}
use casper_agops_server.Control.Store.{Team, Store, find_team, is_team, create_team}
use casper_agops_server.Control.Layers.{team_ancestry}

-- Every team is older than its number allows, and its parent older than the team.
abbrev IsRooted : ℕ → List Team → Type 0
IsRooted n [] = Unit
IsRooted n (t ∷ ts) = (t.team_id < n) × (is_team t.parent_team_id ts ≡ true) × IsRooted t.team_id ts

-- The creations of teams, one after the other; one that throws changes nothing.
unfoldable pub create_teams : List (ℕ × Option ℕ) → Store → Store
create_teams [] s = s
create_teams ((org, parent) ∷ cs) s = elim (create_team org parent s) [
  | none ↦ create_teams cs s
  | some x ↦ create_teams cs x.0
]

IsRooted-later : (n m : ℕ) (ts : List Team) → n ≤ m → IsRooted n ts → IsRooted m ts
IsRooted-later n m [] le r = tt
IsRooted-later n m (t ∷ ts) le r = (ground (arith, r.0), r.1, r.2)

known_below : (n id : ℕ) (ts : List Team) → IsRooted n ts → is_team (some id) ts ≡ true → id < n
unfolding find_team
known_below n id [] r e = absurd (cc)
known_below n id (t ∷ ts) r e = elim (Bool-cases (t.team_id =? id)) [
  | inl same ↦ ground (arith, same, r.0)
  | inr other ↦ ground (arith, r.0, known_below t.team_id id ts r.2 (ground (arith, other, e)))
]

still_known :
    (t : Team) (o : Option ℕ) (ts : List Team) → is_team o ts ≡ true → is_team o (t ∷ ts) ≡ true
unfolding find_team
still_known t none ts e = refl
still_known t (some id) ts e = ground (arith, e)

parent_known :
    (n id : ℕ) (u : Team) (ts : List Team)
    → IsRooted n ts
    → find_team id ts ≡ some u
    → is_team u.parent_team_id ts ≡ true
unfolding find_team
parent_known n id u [] r e = absurd (cc)
parent_known n id u (t ∷ ts) r e = elim (Bool-cases (t.team_id =? id)) [
  | inl same ↦ still_known t u.parent_team_id ts (ground (arith, same, e, r.1))
  | inr other ↦
      still_known t u.parent_team_id ts
        (parent_known t.team_id id u ts r.2 (ground (arith, other, e)))
]

-- A newer team is not on the walk from an older one.
ancestry_skip :
    (steps : ℕ) (o : Option ℕ) (t : Team) (ts : List Team)
    → IsRooted t.team_id ts
    → is_team o ts ≡ true
    → team_ancestry steps o (t ∷ ts) ≡ team_ancestry steps o ts
unfolding team_ancestry find_team
ancestry_skip steps none t ts r e = ground arith
ancestry_skip zero (some id) t ts r e = refl
ancestry_skip (suc steps) (some id) t ts r e = elim (Option-cases (find_team id ts)) [
  | inl missing ↦ absurd (ground (arith, missing, e))
  | inr (u, found) ↦ ground (
    arith,
    found,
    known_below t.team_id id ts r e,
    ancestry_skip steps u.parent_team_id t ts r (parent_known t.team_id id u ts r found),
  )
]

more_steps :
    (steps : ℕ) (o : Option ℕ) (ts : List Team) (l : List ℕ)
    → team_ancestry steps o ts ≡ some l
    → team_ancestry (suc steps) o ts ≡ some l
unfolding team_ancestry
more_steps steps none ts l e = ground (arith, e)
more_steps zero (some id) ts l e = absurd (cc)
more_steps (suc steps) (some id) ts l e = elim (Option-cases (find_team id ts)) [
  | inl missing ↦ ground (arith, missing, e)
  | inr (u, found) ↦ elim (Option-cases (team_ancestry steps u.parent_team_id ts)) [
    | inl out ↦ absurd (ground (arith, found, out, e))
    | inr (rest, walked) ↦
        ground (arith, found, walked, e, more_steps steps u.parent_team_id ts rest walked)
  ]
]

-- As many steps as there are teams, and one, are enough.
ancestry_ends :
    (n : ℕ) (o : Option ℕ) (ts : List Team)
    → IsRooted n ts
    → is_team o ts ≡ true
    → (l : List ℕ) × (team_ancestry (suc (length ts)) o ts ≡ some l)
unfolding team_ancestry find_team
ancestry_ends n none ts r e = ([], ground arith)
ancestry_ends n (some id) [] r e = ([], refl)
ancestry_ends n (some id) (t ∷ ts) r e = elim (Bool-cases (t.team_id =? id)) [
  | inl same ↦
      let rest = ancestry_ends t.team_id t.parent_team_id ts r.2 r.1 in
      (
        id ∷ rest.0,
        ground (arith, same, rest.1, ancestry_skip (suc (length ts)) t.parent_team_id t ts r.2 r.1),
      )
  | inr other ↦
      let known : is_team (some id) ts ≡ true = ground (arith, other, e) in
      let rest = ancestry_ends t.team_id (some id) ts r.2 known in
      (
        rest.0,
        ancestry_skip (suc (suc (length ts))) (some id) t ts r.2 known
            ∙ more_steps (suc (length ts)) (some id) ts rest.0 rest.1,
      )
]

created :
    (org : ℕ) (parent : Option ℕ) (s : Store) (x : Store × ℕ)
    → create_team org parent s ≡ some x
    → (x.0.teams ≡ record { team_id = s.next_id; parent_team_id = parent } ∷ s.teams)
      × (x.0.next_id ≡ suc s.next_id)
      × (is_team parent s.teams ≡ true)
unfolding create_team
created org parent s x e = ground (arith, e)

create_team-IsRooted :
    (org : ℕ) (parent : Option ℕ) (s : Store) (x : Store × ℕ)
    → create_team org parent s ≡ some x
    → IsRooted s.next_id s.teams
    → IsRooted x.0.next_id x.0.teams
create_team-IsRooted org parent s x e r =
    let made = created org parent s x e in
    rw (made.0, made.1)
      ((omega arith, made.2, IsRooted-later s.next_id s.next_id s.teams (omega arith) r))

create_teams-IsRooted :
    (cs : List (ℕ × Option ℕ)) (s : Store)
    → IsRooted s.next_id s.teams
    → IsRooted (create_teams cs s).next_id (create_teams cs s).teams
unfolding create_teams
create_teams-IsRooted [] s r = r
create_teams-IsRooted ((org, parent) ∷ cs) s r = elim (Option-cases (create_team org parent s)) [
  | inl throws ↦ ground (arith, throws, create_teams-IsRooted cs s r)
  | inr (x, e) ↦
      ground (arith, e, create_teams-IsRooted cs x.0 (create_team-IsRooted org parent s x e r))
]

-- Of the teams that are created one after the other from a store without teams, the query that walks
-- from a team up to its ancestors ends: it takes at most one step more than there are teams.
pub team_ancestry-create_teams :
    (cs : List (ℕ × Option ℕ)) (s : Store) (team : Option ℕ)
    → s.teams ≡ []
    → is_team team (create_teams cs s).teams ≡ true
    → (l : List ℕ) × (team_ancestry
          (suc (length (create_teams cs s).teams))
          team
          (create_teams cs s).teams
        ≡ some l)
team_ancestry-create_teams cs s team empty known =
    ancestry_ends (create_teams cs s).next_id team (create_teams cs s).teams
      (create_teams-IsRooted cs s (rw empty tt)) known
