-- ===== src/ObserverFeed/Schedule.antt =====
-- When the feed gives out turns, flares and joins.
use native.Mathlib.Decide.{ℕ_discrete}
use veredus.Base.{
  ℕ, zero, suc, ◌+◌, ◌-◌, ◌≤◌, ◌<◌, ◌≡◌, refl, ap, max, Bool, true, false, not, some, List, [], ◌∷◌,
  ◌++◌, map, ltb, leb, ◌==◌, select, All, All-mono, any, arith, Bool-cases, ◌⊎◌, inl, inr,
}
use veredus.Base.Words.{u32_max, add_u32}
use veredus.Base.Maps.{get}
use veredus.Wire.Lobby.{Flare}
use veredus.Turn.{PeerId}
use veredus.ObserverFeed.{
  ObserverFeed, HeldJoin, turns, target, advance, push_at, all_flares, due_flares, due_joins,
}

-- The calls of `advance` in a row, each with its live turn and whether the feed drains.
unfoldable pub advance_all : List (ℕ × Bool) → ObserverFeed → ObserverFeed × List ℕ
advance_all [] feed = (feed, [])
advance_all ((live, draining) ∷ calls) feed =
    let r = advance live draining feed in
    let rest = advance_all calls r.0 in (rest.0, r.1 ++ rest.1)

append_turns : (s a b : ℕ) → turns s a ++ turns (s + a) b ≡ turns s (a + b)
unfolding turns
append_turns s zero b =
    let here : s + 0 ≡ s = omega arith in let all : 0 + b ≡ b = omega arith in rw (here, all) refl
append_turns s (suc a) b =
    let here : s + suc a ≡ s + 1 + a = omega arith in
    let all : suc a + b ≡ suc (a + b) = omega arith in
    rw (here, all) (ap (λ t. s ∷ t) (append_turns (s + 1) a b))

target-lt :
    (live : ℕ) (draining : Bool) (feed : ObserverFeed)
    → live < u32_max
    → target live draining feed < u32_max
unfolding target
target-lt live draining feed l = ground arith

-- One call gives the turns after the head, up to the new head.
advance_exact :
    (live : ℕ) (draining : Bool) (feed : ObserverFeed)
    → feed.head < u32_max
    → live < u32_max
    → let r = advance live draining feed in
      (r.1 ≡ turns (feed.head + 1) (r.0.head - feed.head))
      × (feed.head ≤ r.0.head)
      × (r.0.head < u32_max)
unfolding advance
advance_exact live draining feed h l =
    let top : target live draining feed < u32_max = target-lt live draining feed l in
    let start : add_u32 feed.head 1 ≡ feed.head + 1 = omega arith in
    let count : max feed.head (target live draining feed) + 1 - (feed.head + 1)
        ≡ max feed.head (target live draining feed) - feed.head =
      omega arith in
    (rw (start, count) refl, omega arith, omega arith)

-- However often the feed advances, and whether it drains: it gives out every turn after its head
-- once and in order, up to its new head, which never moves back. Turns are below the last `u32`.
pub advance_all_exact :
    (calls : List (ℕ × Bool)) (feed : ObserverFeed)
    → feed.head < u32_max
    → All (λ c. c.0 < u32_max) calls
    → let r = advance_all calls feed in
      (r.1 ≡ turns (feed.head + 1) (r.0.head - feed.head)) × (feed.head ≤ r.0.head)
unfolding advance_all turns
advance_all_exact [] feed h l =
    let none_left : feed.head - feed.head ≡ 0 = omega arith in (rw none_left refl, omega arith)
advance_all_exact ((live, draining) ∷ calls) feed h l =
    let now : ObserverFeed = (advance live draining feed).0 in
    let (first, up, bound) = advance_exact live draining feed h l.0 in
    let (later, up') = advance_all_exact calls now bound l.1 in
    let last : ℕ = (advance_all calls now).0.head in
    let start : feed.head + 1 + (now.head - feed.head) ≡ now.head + 1 = omega arith in
    let count : (now.head - feed.head) + (last - now.head) ≡ last - feed.head = omega arith in
    let whole = append_turns (feed.head + 1) (now.head - feed.head) (last - now.head) in
    (rw (first, later) (rw (start, count) at whole), omega arith)

turns-All : (s n top : ℕ) → s + n ≤ suc top → All (λ t. (s ≤ t) × (t ≤ top)) (turns s n)
unfolding turns
turns-All s zero top h = tt
turns-All s (suc n) top h = (
  (omega arith, omega arith),
  All-mono (λ t b. (omega arith, b.1)) _ (turns-All (s + 1) n top (omega arith)),
)

-- While players are left, a turn that the feed gives out is the delay behind the live turn, or
-- more. The head is below the last `u32`.
pub advance_delayed :
    (live : ℕ) (feed : ObserverFeed)
    → feed.head < u32_max
    → All (λ t. t + feed.delay ≤ live) (advance live false feed).1
unfolding advance target
advance_delayed live feed h =
    let start : add_u32 feed.head 1 ≡ feed.head + 1 = omega arith in
    let top : ℕ = max feed.head (live - feed.delay) in
    rw start (
      All-mono (λ t b. let low = b.0 in let high = b.1 in omega arith)
        (turns (feed.head + 1) (top + 1 - (feed.head + 1)))
        (turns-All (feed.head + 1) (top + 1 - (feed.head + 1)) top (omega arith)))

-- The turns of flares ascend.
abbrev pub IsOrdered : List (ℕ × List Flare) → Type 0
IsOrdered [] = Unit {0}
IsOrdered (e ∷ es) = All (λ f. e.0 < f.0) es × IsOrdered es

push_at-All :
    (n turn : ℕ) (flare : Flare) (es : List (ℕ × List Flare))
    → n < turn
    → All (λ e. n < e.0) es
    → All (λ e. n < e.0) (push_at turn flare es)
unfolding push_at
push_at-All n turn flare [] h v = (h, tt)
push_at-All n turn flare ((t, fs) ∷ es) h v = ground (arith, push_at-All n turn flare es h v.1)

queue_flare-IsOrdered :
    (turn : ℕ) (flare : Flare) (es : List (ℕ × List Flare))
    → IsOrdered es
    → IsOrdered (push_at turn flare es)
unfolding push_at
queue_flare-IsOrdered turn flare [] v = (tt, tt)
queue_flare-IsOrdered turn flare ((t, fs) ∷ es) v = elim (Bool-cases (t == turn)) [
  | inl same ↦ rw (same, push_at) v
  | inr other ↦ elim (Bool-cases (ltb turn t)) [
    | inl before ↦
        rw (other, push_at)
          (rw before
            ((ground (arith, before), All-mono (λ e l. ground (arith, before, l)) es v.0), v))
    | inr after ↦
        rw (other, push_at)
          (rw after (
            push_at-All t turn flare es (ground (arith, other, after)) v.0,
            queue_flare-IsOrdered turn flare es v.1,
          ))
  ]
]

later-select :
    (n : ℕ) (es : List (ℕ × List Flare))
    → All (λ e. n ≤ e.0) es
    → (select (λ e. ltb e.0 n) es ≡ []) × (select (λ e. leb n e.0) es ≡ es)
later-select n [] v = (refl, refl)
later-select n (e ∷ es) v = let (a, b) = later-select n es v.1 in ground (arith, a, b)

split_flares :
    (n : ℕ) (es : List (ℕ × List Flare))
    → IsOrdered es
    → es ≡ select (λ e. ltb e.0 n) es ++ select (λ e. leb n e.0) es
split_flares n [] v = refl
split_flares n ((t, fs) ∷ es) v = elim (Bool-cases (ltb t n)) [
  | inl due ↦
      let not_later : leb n t ≡ false = ground (arith, due) in
      rw (due, not_later) (ap (◌∷◌ (t, fs)) (split_flares n es v.1))
  | inr later ↦
      let kept : leb n t ≡ true = ground (arith, later) in
      let (nothing, all) = later-select n es (All-mono (λ e l. ground (arith, later, l)) es v.0) in
      rw (later, kept) (rw (nothing, all) refl)
]

select-earlier :
    (n : ℕ) (es : List (ℕ × List Flare)) → All (λ e. e.0 < n) (select (λ e. ltb e.0 n) es)
select-earlier n [] = tt
select-earlier n (e ∷ es) = ground (arith, select-earlier n es)

select-later :
    (n : ℕ) (es : List (ℕ × List Flare)) → All (λ e. n ≤ e.0) (select (λ e. leb n e.0) es)
select-later n [] = tt
select-later n (e ∷ es) = ground (arith, select-later n es)

-- The queue of flares is cut in two: its front, the turns up to the head, is given out flare by
-- flare in the order of the turns, and the rest, every turn past the head, stays as it was. The
-- flares wait in the order of their turns, and the head is below the last `u32`.
pub due_flares_front :
    (feed : ObserverFeed)
    → IsOrdered feed.flares
    → feed.head < u32_max
    → let r = due_flares feed in
      (front : List (ℕ × List Flare)) × (feed.flares ≡ front ++ r.0.flares)
      × All (λ e. e.0 ≤ feed.head) front
      × All (λ e. feed.head < e.0) r.0.flares
      × (r.1 ≡ all_flares front)
unfolding due_flares
due_flares_front feed v h =
    let start : add_u32 feed.head 1 ≡ feed.head + 1 = omega arith in
    rw start (
      select (λ e. ltb e.0 (feed.head + 1)) feed.flares,
      split_flares (feed.head + 1) feed.flares v,
      All-mono (λ e l. omega arith) _ (select-earlier (feed.head + 1) feed.flares),
      All-mono (λ e l. omega arith) _ (select-later (feed.head + 1) feed.flares),
      refl,
    )

get-kept :
    (peer head : ℕ) (held : HeldJoin) (es : List (PeerId × HeldJoin))
    → get ℕ_discrete peer es ≡ some held
    → head < held.bound
    → get ℕ_discrete peer (select (λ e. not (leb e.1.bound head)) es) ≡ some held
unfolding get ℕ_discrete
get-kept peer head held [] e l = ground arith
get-kept peer head held ((p, x) ∷ es) e l = ground (arith, get-kept peer head held es)

get-due :
    (peer head : ℕ) (held : HeldJoin) (es : List (PeerId × HeldJoin))
    → get ℕ_discrete peer es ≡ some held
    → held.bound ≤ head
    → any (λ e. e.0 == peer) (select (λ e. leb e.1.bound head) es) ≡ true
unfolding get ℕ_discrete
get-due peer head held [] e l = ground arith
get-due peer head held ((p, x) ∷ es) e l = ground (arith, get-due peer head held es)

any-map :
    {A B : Type 0} (f : A → B) (p : B → Bool) (xs : List A)
    → any p (map f xs) ≡ any (λ x. p (f x)) xs
any-map f p [] = refl
any-map f p (x ∷ xs) = ground (arith, any-map f p xs)

-- A join that is held is given out by the first call at which the head has reached its bound, and
-- stays held at every call before.
pub due_joins_held :
    (peer : ℕ) (held : HeldJoin) (feed : ObserverFeed)
    → get ℕ_discrete peer feed.joins ≡ some held
    → (feed.head < held.bound) × (get ℕ_discrete peer (due_joins feed).0.joins ≡ some held)
      ⊎ (held.bound ≤ feed.head) × (any (λ r. r.0 == peer) (due_joins feed).1 ≡ true)
unfolding due_joins
due_joins_held peer held feed here = elim (Bool-cases (ltb feed.head held.bound)) [
  | inl early ↦
      inl (
        ground (arith, early),
        get-kept peer feed.head held feed.joins here (ground (arith, early)),
      )
  | inr due ↦
      let reached : held.bound ≤ feed.head = ground (arith, due) in
      inr (reached, rw any-map (get-due peer feed.head held feed.joins here reached))
]
