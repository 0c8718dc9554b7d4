-- ===== src/Campd/Supervisor/Shutdown/Groups.antt =====
-- The groups that the end of campd terminates.
use sandcamp.Base.{
  ℕ, ◌≡◌, ◌↔◌, refl, sym, subst, inl, inr, true, ◌||◌, List, [], ◌∷◌, ◌++◌, In, here, there,
  In-cases, In-append-left, In-append-right, In-append-split, map, any, ◌==◌, ==_iff, Bool-cases,
  if-cases, arith,
}
use sandcamp.Campd.Supervisor.{ManagedProcess, PendingCleanup, Supervisor}
use sandcamp.Campd.Supervisor.Shutdown.{process_groups, group_of, collect, groups_to_end}

-- A process that is alive or has left descendants, or a pending cleanup, has the group.
pub data Owns (g : ℕ) (s : Supervisor) : Type 0 where
  process :
      (p : ManagedProcess)
      → In p s.processes
      → (p.alive || p.residual_group) ≡ true
      → p.pid ≡ g
      → Owns g s
  cleanup : (c : PendingCleanup) → In c s.cleanups → c.group ≡ g → Owns g s

any-of-In : (g : ℕ) (gs : List ℕ) → In g gs → any (λ h. h == g) gs ≡ true
unfolding any
any-of-In g [] i = elim i [ ]
any-of-In g (h ∷ gs) here = ground (arith, ==_iff g g)
any-of-In g (h ∷ gs) (there i) = ground (arith, any-of-In g gs i)

In-of-any : (g : ℕ) (gs : List ℕ) → any (λ h. h == g) gs ≡ true → In g gs
unfolding any
In-of-any g [] e = cc
In-of-any g (h ∷ gs) e = elim (Bool-cases (h == g)) [
  | inl same ↦ subst (λ x. In x (h ∷ gs)) ((==_iff h g).0 same) here
  | inr other ↦ there (In-of-any g gs (ground arith))
]

-- `collect` keeps the members and drops what is there twice.
In-collect : (g : ℕ) (gs : List ℕ) → In g gs → In g (collect gs)
unfolding collect
In-collect g [] i = elim i [ ]
In-collect g (h ∷ gs) here =
    if-cases (In h) (any (λ x. x == h) (collect gs)) (collect gs) (h ∷ collect gs)
      (λ e. In-of-any h (collect gs) e) (λ e. here)
In-collect g (h ∷ gs) (there i) =
    if-cases (In g) (any (λ x. x == h) (collect gs)) (collect gs) (h ∷ collect gs)
      (λ e. In-collect g gs i) (λ e. there (In-collect g gs i))

In-of-collect : (g : ℕ) (gs : List ℕ) → In g (collect gs) → In g gs
unfolding collect
In-of-collect g [] = λ i. i
In-of-collect g (h ∷ gs) =
    if-cases (λ xs. In g xs → In g (h ∷ gs)) (any (λ x. x == h) (collect gs)) (collect gs)
      (h ∷ collect gs) (λ e i. there (In-of-collect g gs i))
      (λ e i. elim (In-cases g h (collect gs) i) [
        | inl same ↦ subst (λ x. In x (h ∷ gs)) (sym same) here
        | inr j ↦ there (In-of-collect g gs j)
      ])

-- A process of a list that has the group.
record Lives (g : ℕ) (ps : List ManagedProcess) : Type 0 where
  process : ManagedProcess
  member : In process ps
  lives : (process.alive || process.residual_group) ≡ true
  same : process.pid ≡ g

Lives-here :
    (p : ManagedProcess) (ps : List ManagedProcess)
    → (p.alive || p.residual_group) ≡ true
    → Lives p.pid (p ∷ ps)
Lives-here p ps e = record { process = p; member = here; lives = e; same = refl }

Lives-there :
    {g : ℕ} {p : ManagedProcess} {ps : List ManagedProcess} → Lives g ps → Lives g (p ∷ ps)
Lives-there l = record {
  process = l.process;
  member = there l.member;
  lives = l.lives;
  same = l.same;
}

Lives-of-groups : (g : ℕ) (ps : List ManagedProcess) → In g (process_groups ps) → Lives g ps
unfolding process_groups
Lives-of-groups g [] = λ i. elim i [ ]
Lives-of-groups g (p ∷ ps) =
    if-cases (λ xs. In g xs → Lives g (p ∷ ps)) (p.alive || p.residual_group)
      (p.pid ∷ process_groups ps) (process_groups ps)
      (λ e i. elim (In-cases g p.pid (process_groups ps) i) [
        | inl same ↦ subst (λ x. Lives x (p ∷ ps)) (sym same) (Lives-here p ps e)
        | inr j ↦ Lives-there (Lives-of-groups g ps j)
      ])
      (λ e i. Lives-there (Lives-of-groups g ps i))

In-process_groups :
    (p : ManagedProcess) (ps : List ManagedProcess)
    → In p ps
    → (p.alive || p.residual_group) ≡ true
    → In p.pid (process_groups ps)
unfolding process_groups
In-process_groups p [] i e = elim i [ ]
In-process_groups p (x ∷ ps) i e =
    if-cases (In p.pid) (x.alive || x.residual_group) (x.pid ∷ process_groups ps)
      (process_groups ps)
      (λ f. elim (In-cases p x ps i) [
        | inl same ↦ subst (λ y. In p.pid (y.pid ∷ process_groups ps)) same here
        | inr j ↦ there (In-process_groups p ps j e)
      ])
      (λ f. elim (In-cases p x ps i) [
        | inl same ↦
            let lives : (x.alive || x.residual_group) ≡ true =
              subst (λ (y : ManagedProcess). (y.alive || y.residual_group) ≡ true) same e in
            cc
        | inr j ↦ In-process_groups p ps j e
      ])

-- A cleanup of a list that has the group.
record Awaits (g : ℕ) (cs : List PendingCleanup) : Type 0 where
  cleanup : PendingCleanup
  member : In cleanup cs
  same : cleanup.group ≡ g

Awaits-of-map : (g : ℕ) (cs : List PendingCleanup) → In g (map group_of cs) → Awaits g cs
Awaits-of-map g [] i = elim i [ ]
Awaits-of-map g (c ∷ cs) here = record { cleanup = c; member = here; same = refl }
Awaits-of-map g (c ∷ cs) (there i) =
    let l = Awaits-of-map g cs i in
    record { cleanup = l.cleanup; member = there l.member; same = l.same }

In-map : (c : PendingCleanup) (cs : List PendingCleanup) → In c cs → In c.group (map group_of cs)
In-map c (x ∷ cs) i = elim (In-cases c x cs i) [
  | inl same ↦ subst (λ (y : PendingCleanup). In c.group (y.group ∷ map group_of cs)) same here
  | inr j ↦ there (In-map c cs j)
]
In-map c [] i = elim i [ ]

pub groups_to_end_iff : (g : ℕ) (s : Supervisor) → In g (groups_to_end s) ↔ Owns g s
unfolding groups_to_end
groups_to_end_iff g s =
    let ps = process_groups s.processes in
    let cs = map group_of s.cleanups in
    (
      λ i. elim (In-append-split g ps cs (In-of-collect g (ps ++ cs) i)) [
        | inl j ↦
            let l = Lives-of-groups g s.processes j in process l.process l.member l.lives l.same
        | inr j ↦ let l = Awaits-of-map g s.cleanups j in cleanup l.cleanup l.member l.same
      ],
      λ o. In-collect g (ps ++ cs) (elim o [
        | process p i e same ↦
            In-append-left cs (subst (λ x. In x ps) same (In-process_groups p s.processes i e))
        | cleanup c i same ↦ In-append-right ps (subst (λ x. In x cs) same (In-map c s.cleanups i))
      ]),
    )
