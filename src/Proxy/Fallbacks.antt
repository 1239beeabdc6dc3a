-- ===== src/Proxy/Fallbacks.antt =====
-- What the fallbacks for a model at capacity add to the candidates: `SelectCapacityFallbacks` of
-- internal/proxy/router_engine.go and the loop over its result in `handleCodexCapacity`.
use text.Mathlib.TextPositions.{eq_refl}
use mathlib.Core.List.{map-append, append_assoc}
use mathlib.Core.Path.{subst}
use modelserver.Prelude.{
  ℕ, suc, ◌+◌, ◌≤◌, String, ◌≡◌, refl, sym, ap, ◌∙◌, Bool, true, false, not, ◌&&◌, ◌||◌, inl, inr,
  List, [], ◌∷◌, ◌++◌, any, Option, none, some, arith, contains, length, length-append, str_eq, All,
  Bool-cases, if◌then◌else◌, eq_iff,
}
use modelserver.Prelude.Int.{ℤ}
use modelserver.Types.{Upstream}
use modelserver.Lb.Balancer.{CandidateInfo, State}
use modelserver.Lb.Members.{Candidates, Listed, select_n-Listed}
use modelserver.Router.Matching.{ResolvedGroup, GroupMember}
use modelserver.Router.Selection.{
  SelectedUpstream, Env, is_available, is_kind, if_none, candidates_of, usable_candidates,
  with_keys, select_capacity_fallbacks,
}
use modelserver.Proxy.Requests.{ids, add_fallbacks}

-- The id is that of a member.
abbrev pub is_member : List GroupMember → String → Bool
is_member ms id = any (λ m. str_eq m.upstream.id id) ms

abbrev pub Members : List GroupMember → List SelectedUpstream → Type 0
Members ms fs = All (λ f. is_member ms f.upstream.id ≡ true) fs

abbrev MemberId : List GroupMember → Upstream → Type 0
MemberId ms u = is_member ms u.id ≡ true

-- Each member of a list of members is one.
members-All :
    (ms all : List GroupMember)
    → ((p : GroupMember → Bool) → any p ms ≡ true → any p all ≡ true)
    → All (λ m. is_member all m.upstream.id ≡ true) ms
members-All [] all sub = tt
members-All (m ∷ ms) all sub = (
  sub (λ k. str_eq k.upstream.id m.upstream.id) (rw (eq_refl m.upstream.id) refl),
  members-All ms all (λ p h. sub p (ground arith)),
)

candidates_of-Candidates :
    (P : Upstream → Type 0) (counts : String → ℤ) (excluded : List String) (backup : Bool)
    (ms : List GroupMember)
    → All (λ m. P m.upstream) ms
    → Candidates P (candidates_of counts excluded backup ms)
unfolding candidates_of
candidates_of-Candidates P counts excluded backup [] h = tt
candidates_of-Candidates P counts excluded backup (m ∷ ms) h =
    let rest = candidates_of-Candidates P counts excluded backup ms h.1 in
    elim (Bool-cases (
      not (contains excluded m.upstream.id)
      && is_available counts m.upstream
      && is_kind backup m)) [ inl offered ↦ rw offered (h.0, rest) | inr skipped ↦ rw skipped rest ]

if_none-Candidates :
    (P : Upstream → Type 0) (cs ds : List CandidateInfo)
    → Candidates P cs
    → Candidates P ds
    → Candidates P (if_none cs ds)
if_none-Candidates P [] ds h k = k
if_none-Candidates P (c ∷ cs) ds h k = h

abbrev pub AllMembers : List GroupMember → Option (List SelectedUpstream) → Type 0
AllMembers ms none = Unit
AllMembers ms (some fs) = Members ms fs

with_keys-AllMembers :
    (env : Env) (ms : List GroupMember) (us : Option (List Upstream))
    → Listed (MemberId ms) us
    → AllMembers ms (with_keys env us)
with_keys-AllMembers env ms none h = tt
with_keys-AllMembers env ms (some []) h = tt
with_keys-AllMembers env ms (some (u ∷ us)) h = (h.0, with_keys-AllMembers env ms (some us) h.1)

-- Whatever the balancer draws, the fallbacks are members of the group.
pub select_capacity_fallbacks-AllMembers :
    (env : Env) (g : ResolvedGroup) (excluded : List String) (s : State)
    → AllMembers g.members (select_capacity_fallbacks env g excluded s).0
unfolding select_capacity_fallbacks usable_candidates
select_capacity_fallbacks-AllMembers env g excluded s =
    let P = MemberId g.members in
    let all = members-All g.members g.members (λ p h. h) in
    with_keys-AllMembers env g.members _ (
      select_n-Listed P env.rand env.policy _ _ s (
        if_none-Candidates P _ _
          (candidates_of-Candidates P env.counts excluded false g.members all)
          (candidates_of-Candidates P env.counts excluded true g.members all)))

-- The members that are not among the known ids.
abbrev pub fresh : List GroupMember → List String → ℕ
fresh [] known = 0
fresh (m ∷ ms) known = (if contains known m.upstream.id then 0 else 1) + fresh ms known

-- The ids are pairwise distinct.
abbrev pub Distinct : List String → Type 0
Distinct [] = Unit
Distinct (x ∷ xs) = (contains xs x ≡ false) × Distinct xs

abbrev pub SameIds : List String → List String → Type 0
SameIds xs ys = (x : String) → contains xs x ≡ contains ys x

pub contains-append :
    (xs ys : List String) (x : String) → contains (xs ++ ys) x ≡ (contains xs x || contains ys x)
contains-append [] ys x = refl
contains-append (y ∷ xs) ys x = ground (arith, contains-append xs ys x)

pub fresh-SameIds :
    (ms : List GroupMember) (xs ys : List String) → SameIds xs ys → fresh ms xs ≡ fresh ms ys
fresh-SameIds [] xs ys h = refl
fresh-SameIds (m ∷ ms) xs ys h =
    rw (h m.upstream.id)
      (ap (λ n. (if contains ys m.upstream.id then 0 else 1) + n) (fresh-SameIds ms xs ys h))

fresh-le : (ms : List GroupMember) (xs : List String) (x : String) → fresh ms (x ∷ xs) ≤ fresh ms xs
fresh-le [] xs x = omega arith
fresh-le (m ∷ ms) xs x = ground (arith, fresh-le ms xs x)

-- A member that becomes known is no longer fresh.
fresh-cons :
    (ms : List GroupMember) (xs : List String) (x : String)
    → contains xs x ≡ false
    → is_member ms x ≡ true
    → suc (fresh ms (x ∷ xs)) ≤ fresh ms xs
fresh-cons [] xs x h k = cc
fresh-cons (m ∷ ms) xs x h k =
    ground (
      arith,
      fresh-le ms xs x,
      fresh-cons ms xs x h,
      eq_iff m.upstream.id x,
      eq_iff x m.upstream.id,
    )

Distinct-snoc :
    (xs : List String) (x : String) → contains xs x ≡ false → Distinct xs → Distinct (xs ++ x ∷ [])
Distinct-snoc [] x h d = (refl, tt)
Distinct-snoc (y ∷ xs) x h d =
    let apart : contains (xs ++ x ∷ []) y ≡ false =
      rw (contains-append xs (x ∷ []) y) (ground (arith, d.0, eq_iff y x, eq_iff x y)) in
    (apart, Distinct-snoc xs x (ground arith) d.1)

ids_snoc :
    (seen : List String) (todo : List SelectedUpstream) (f : SelectedUpstream)
    → seen ++ ids (todo ++ f ∷ []) ≡ (seen ++ ids todo) ++ f.upstream.id ∷ []
ids_snoc seen todo f = rw (map-append, append_assoc)

SameIds-snoc :
    (known xs : List String) (x : String) → SameIds known xs → SameIds (x ∷ known) (xs ++ x ∷ [])
SameIds-snoc known xs x h y = rw (contains-append xs (x ∷ []) y) (ground (arith, h y))

-- The slice with the fallbacks: its ids stay distinct, and each one that is added is no longer
-- fresh.
pub record Extended (ms : List GroupMember) (seen : List String)
    (todo todo' : List SelectedUpstream) : Type 0 where
  pub measure :
      length todo' + fresh ms (seen ++ ids todo') ≤ length todo + fresh ms (seen ++ ids todo)
  pub distinct : Distinct (seen ++ ids todo) → Distinct (seen ++ ids todo')

pub Extended-refl :
    (ms : List GroupMember) (seen : List String) (todo : List SelectedUpstream)
    → Extended ms seen todo todo
Extended-refl ms seen todo = record { measure = omega arith; distinct = λ d. d }

add_fallback-Extended :
    (ms : List GroupMember) (seen : List String) (todo : List SelectedUpstream)
    (f : SelectedUpstream)
    → contains (seen ++ ids todo) f.upstream.id ≡ false
    → is_member ms f.upstream.id ≡ true
    → Extended ms seen todo (todo ++ f ∷ [])
add_fallback-Extended ms seen todo f new member =
    let xs = seen ++ ids todo in
    let same : SameIds (xs ++ f.upstream.id ∷ []) (f.upstream.id ∷ xs) =
      λ y. sym (SameIds-snoc xs xs f.upstream.id (λ z. refl) y) in
    record {
      measure =
          rw
            (
              ids_snoc seen todo f,
              fresh-SameIds ms (xs ++ f.upstream.id ∷ []) (f.upstream.id ∷ xs) same,
            )
            (omega (arith, length-append todo (f ∷ []), fresh-cons ms xs f.upstream.id new member));
      distinct = λ d. rw (ids_snoc seen todo f) (Distinct-snoc xs f.upstream.id new d);
    }

pub add_fallbacks-Extended :
    (ms : List GroupMember) (seen known : List String) (fs todo : List SelectedUpstream)
    → SameIds known (seen ++ ids todo)
    → Members ms fs
    → Extended ms seen todo (add_fallbacks fs known todo)
unfolding add_fallbacks
add_fallbacks-Extended ms seen known [] todo same members = Extended-refl ms seen todo
add_fallbacks-Extended ms seen known (f ∷ fs) todo same members =
    elim (Bool-cases (contains known f.upstream.id)) [
      | inl old ↦ rw old (add_fallbacks-Extended ms seen known fs todo same members.1)
      | inr new ↦
          let here =
            add_fallback-Extended ms seen todo f (sym (same f.upstream.id) ∙ new) members.0 in
          let later =
            add_fallbacks-Extended ms seen (f.upstream.id ∷ known) fs (todo ++ f ∷ [])
              (subst (SameIds (f.upstream.id ∷ known)) (sym (ids_snoc seen todo f))
                (SameIds-snoc known (seen ++ ids todo) f.upstream.id same))
              members.1 in
          rw new (record {
            measure = omega (arith, here.measure, later.measure);
            distinct = λ d. later.distinct (here.distinct d);
          })
    ]
