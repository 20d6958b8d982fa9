-- ===== src/Status/Conditions.antt =====
-- The conditions as a map from types to what is reported of each (internal/status/conditions.go).
use kubernetes_operators.Common.{
  ℕ, ◌≤◌, ◌+◌, String, ◌≡◌, refl, false, Option, none, some, List, [], ◌∷◌, ◌==◌, arith, eq_iff,
  eq_refl, if◌then◌else◌, length,
}
use kubernetes_operators.Api.Meta.{Condition}
use kubernetes_operators.Api.V1alpha1.{PlatformApplicationStatus, condition_ready}
use kubernetes_operators.Status.{
  update_condition, new_condition, set_in, set_condition, ready_in, is_ready,
}

-- The first condition of a type.
unfoldable pub find : String → List Condition → Option Condition
find t [] = none
find t (c ∷ cs) = if c.type == t then some c else find t cs

-- What a set condition says, apart from when it changed.
abbrev pub Says : Option Condition → String → String → String → Type 0
Says none cond_status reason message = ⊥
Says (some c) cond_status reason message =
    (c.status ≡ cond_status) × (c.reason ≡ reason) × (c.message ≡ message)

-- No type has two conditions, as the list map of the CRD demands.
abbrev IsKeyed : List Condition → Type 0
IsKeyed [] = Unit
IsKeyed (c ∷ cs) = (find c.type cs ≡ none) × IsKeyed cs

update_condition-Says :
    (now : ℕ) (st reason message : String) (c : Condition)
    → Says (some (update_condition now st reason message c)) st reason message
unfolding update_condition
update_condition-Says now st reason message c =
    ground (arith, eq_iff c.status st, eq_iff c.reason reason, eq_iff c.message message)

update_condition-type :
    (now : ℕ) (st reason message : String) (c : Condition)
    → (update_condition now st reason message c).type ≡ c.type
unfolding update_condition
update_condition-type now st reason message c = ground arith

-- The entry of the set type after the write.
abbrev pub updated : ℕ → String → String → String → String → Option Condition → Condition
updated now t st reason message none = new_condition now t st reason message
updated now t st reason message (some c) = update_condition now st reason message c

find-set_in :
    (now : ℕ) (t st reason message j : String) (cs : List Condition)
    → find j (set_in now t st reason message cs)
      ≡ (if t == j then some (updated now t st reason message (find t cs)) else find j cs)
unfolding find set_in new_condition
find-set_in now t st reason message j [] = refl
find-set_in now t st reason message j (c ∷ cs) = ground (
  arith,
  eq_iff c.type t,
  eq_iff c.type j,
  eq_iff t j,
  update_condition-type now st reason message c,
  find-set_in now t st reason message j cs,
)

updated-Says :
    (now : ℕ) (t st reason message : String) (o : Option Condition)
    → Says (some (updated now t st reason message o)) st reason message
unfolding new_condition
updated-Says now t st reason message none = (refl, refl, refl)
updated-Says now t st reason message (some c) = update_condition-Says now st reason message c

-- After setting a condition, the condition of that type says what was set, and every other type
-- is found as before.
pub set_condition-find :
    (now : ℕ) (t st reason message j : String) (s : PlatformApplicationStatus)
    → let s' = set_condition now t st reason message s in
      Says (find t s'.conditions) st reason message
      × (find j s'.conditions ≡ (if t == j then find t s'.conditions else find j s.conditions))
unfolding set_condition
set_condition-find now t st reason message j s = (
  rw (find-set_in now t st reason message t s.conditions, eq_refl t)
      (updated-Says now t st reason message (find t s.conditions)),
  ground (
    arith,
    find-set_in now t st reason message j s.conditions,
    find-set_in now t st reason message t s.conditions,
    eq_refl t,
  ),
)

set_in-IsKeyed :
    (now : ℕ) (t st reason message : String) (cs : List Condition)
    → IsKeyed cs
    → IsKeyed (set_in now t st reason message cs)
unfolding set_in
set_in-IsKeyed now t st reason message [] h = (unfold find in refl, tt)
set_in-IsKeyed now t st reason message (c ∷ cs) h = ground (
  arith,
  set_in-IsKeyed now t st reason message cs h.1,
  eq_iff c.type t,
  eq_iff t c.type,
  find-set_in now t st reason message c.type cs,
  update_condition-type now st reason message c,
)

length-set_in :
    (now : ℕ) (t st reason message : String) (cs : List Condition)
    → length (set_in now t st reason message cs) ≤ length cs + 1
unfolding set_in
length-set_in now t st reason message [] = omega arith
length-set_in now t st reason message (c ∷ cs) =
    ground (arith, length-set_in now t st reason message cs)

-- Setting conditions keeps them a map: from a list with no type twice comes one with no type
-- twice, longer by one at most.
set_condition-IsKeyed :
    (now : ℕ) (t st reason message : String) (s : PlatformApplicationStatus)
    → IsKeyed s.conditions
    → IsKeyed (set_condition now t st reason message s).conditions
      × (length (set_condition now t st reason message s).conditions ≤ length s.conditions + 1)
unfolding set_condition
set_condition-IsKeyed now t st reason message s h = (
  set_in-IsKeyed now t st reason message s.conditions h,
  length-set_in now t st reason message s.conditions,
)

set_in-same :
    (now : ℕ) (t st reason message : String) (cs : List Condition)
    → Says (find t cs) st reason message
    → set_in now t st reason message cs ≡ cs
unfolding find set_in update_condition
set_in-same now t st reason message [] h = absurd h
set_in-same now t st reason message (c ∷ cs) h = ground (
  arith,
  eq_iff c.status st,
  eq_iff c.reason reason,
  eq_iff c.message message,
  set_in-same now t st reason message cs,
)

-- Setting what a condition already says changes nothing, its transition time included.
pub set_condition-same :
    (now : ℕ) (t st reason message : String) (s : PlatformApplicationStatus)
    → Says (find t s.conditions) st reason message
    → set_condition now t st reason message s ≡ s
unfolding set_condition
set_condition-same now t st reason message s h i = record s {
  conditions = set_in-same now t st reason message s.conditions h i;
}

-- Setting a condition to what it does not say stamps it with the time of the call.
pub set_condition_stamps :
    (now : ℕ) (t st reason message : String) (s : PlatformApplicationStatus) {c : Condition}
    → find t s.conditions ≡ some c
    → ¬ Says (some c) st reason message
    → find t (set_condition now t st reason message s).conditions
      ≡ some
          (record c { status = st; reason = reason; message = message; last_transition_time = now })
unfolding set_condition
set_condition_stamps now t st reason message s {c} f h =
    rw (find-set_in now t st reason message t s.conditions, eq_refl t, f)
      (unfold update_condition in
        ground (arith, eq_iff c.status st, eq_iff c.reason reason, eq_iff c.message message))

ready_in-find :
    (cs : List Condition)
    → ready_in cs ≡ elim (find condition_ready cs) [ none ↦ false | some c ↦ c.status == "True" ]
unfolding ready_in find
ready_in-find [] = refl
ready_in-find (c ∷ cs) = ground (arith, ready_in-find cs)

-- The application is ready exactly as its Ready condition was last set.
pub is_ready-set_ready :
    (now : ℕ) (st reason message : String) (s : PlatformApplicationStatus)
    → is_ready (set_condition now condition_ready st reason message s) ≡ (st == "True")
unfolding is_ready set_condition
is_ready-set_ready now st reason message s =
    rw
      (
        ready_in-find (set_in now condition_ready st reason message s.conditions),
        find-set_in now condition_ready st reason message condition_ready s.conditions,
      )
      (let h =
          updated-Says now condition_ready st reason message (find condition_ready s.conditions) in
        rw (h.0))
