-- ===== src/Store/Redis/Memory.antt =====
-- A Redis that never fails, with a function for each kind of keys: for the examples.
use provider_engine.Base.{
  Text, ◌==◌, ==_iff, ==_refl, ℤ, pos, ◌+ℤ◌, List, [], ◌∷◌, ◌++◌, Bool, true, false, ◌≡◌, ◌≢◌, refl,
  if◌then◌else◌, inl, inr, Bool-cases, ap, sym, ◌⊎◌,
}
use provider_engine.Errors.{redis_nil}
use provider_engine.Exec.{Result, ok, err}
use provider_engine.Store.Redis.{Redis}
use provider_engine.Store.Redis.Laws.{IsRedis}

pub record Memory : Type 0 where
  pub counters : Text → ℤ
  pub lists : Text → List Text
  pub sets : Text → Text → Bool

abbrev pub no_data : Memory
no_data = record { counters = λ k. pos 0; lists = λ k. []; sets = λ k v. false }

abbrev pub put : {A : Type 0} → (Text → A) → Text → A → Text → A
put f k a j = if k == j then a else f j

-- all but the last, and the last
abbrev pub unsnoc : Text → List Text → List Text × Text
unsnoc x [] = ([], x)
unsnoc x (y ∷ ys) = let rest = unsnoc y ys in (x ∷ rest.0, rest.1)

abbrev pop_tail : Text → List Text → Memory → Result (Text × Text) × Memory
pop_tail k [] s = (err redis_nil, s)
pop_tail k (x ∷ xs) s =
    (ok (k, (unsnoc x xs).1), record s { lists = put s.lists k (unsnoc x xs).0 })

abbrev pub memory : Redis
memory = record {
  Data = Memory;
  incr = λ k s. (
    ok (s.counters k +ℤ pos 1),
    record s { counters = put s.counters k (s.counters k +ℤ pos 1) },
  );
  lpush = λ k v s. (ok (pos 1), record s { lists = put s.lists k (v ∷ s.lists k) });
  brpop = λ w k s. pop_tail k (s.lists k) s;
  sadd = λ k v s. (ok (pos 1), record s { sets = put s.sets k (put (s.sets k) v true) });
  srem = λ k v s. (ok (pos 1), record s { sets = put s.sets k (put (s.sets k) v false) });
  sismember = λ k v s. (ok (s.sets k v), s);
  counter = λ s. s.counters;
  items = λ s. s.lists;
  is_member = λ s. s.sets;
}

put_same : {A : Type 0} (f : Text → A) (k : Text) (a : A) → put f k a k ≡ a
put_same f k a = rw (==_refl k) refl

put_true : (f : Text → Bool) (k j : Text) → f j ≡ true → put f k true j ≡ true
put_true f k j h = elim (Bool-cases (k == j)) [ inl e ↦ rw e refl | inr e ↦ rw e h ]

put_other : {A : Type 0} (f : Text → A) (k j : Text) (a : A) → k ≢ j → put f k a j ≡ f j
put_other f k j a n = elim (Bool-cases (k == j)) [
  | inl e ↦ absurd (n ((==_iff k j).0 e))
  | inr e ↦ rw e refl
]

unsnoc-append : (x : Text) (xs : List Text) → x ∷ xs ≡ (unsnoc x xs).0 ++ (unsnoc x xs).1 ∷ []
unsnoc-append x [] = refl
unsnoc-append x (y ∷ ys) = ap (λ l. x ∷ l) (unsnoc-append y ys)

ok-injective : {A : Type 0} {a b : A} → ok a ≡ ok b → a ≡ b
ok-injective e = cc

popped_value :
    (k : Text) (xs : List Text) (s : Memory) (key v : Text)
    → s.lists k ≡ xs
    → (pop_tail k xs s).0 ≡ ok (key, v)
    → s.lists k ≡ (pop_tail k xs s).1.lists k ++ v ∷ []
popped_value k [] s key v e h = absurd (cc h)
popped_value k (x ∷ xs) s key v e h =
    let last : (unsnoc x xs).1 ≡ v = ap (λ q. q.1) (ok-injective h) in
    rw (e, ==_refl k, ← last) (unsnoc-append x xs)

popped_other :
    (k j : Text) (xs : List Text) (s : Memory) → k ≢ j → (pop_tail k xs s).1.lists j ≡ s.lists j
popped_other k j [] s n = refl
popped_other k j (x ∷ xs) s n = put_other s.lists k j _ n

popped_nil :
    (k : Text) (xs : List Text) (s : Memory) → (pop_tail k xs s).0 ≡ err redis_nil → xs ≡ []
popped_nil k [] s h = refl
popped_nil k (x ∷ xs) s h = absurd (cc h)

popped_either :
    (k : Text) (xs : List Text) (s : Memory)
    → s.lists k ≡ xs
    → ((pop_tail k xs s).1.lists k ≡ s.lists k)
      ⊎ ((v : Text) × (s.lists k ≡ (pop_tail k xs s).1.lists k ++ v ∷ []))
popped_either k [] s e = inl refl
popped_either k (x ∷ xs) s e = inr ((unsnoc x xs).1, rw (e, ==_refl k) (unsnoc-append x xs))

popped_counter :
    (k : Text) (xs : List Text) (s : Memory) → (pop_tail k xs s).1.counters ≡ s.counters
popped_counter k [] s = refl
popped_counter k (x ∷ xs) s = refl

pub memory-IsRedis : IsRedis memory
memory-IsRedis = record {
  incr_counter = λ k s n h.
      let e = ok-injective h in (sym e, rw (put_same s.counters k (s.counters k +ℤ pos 1)) e);
  incr_either = λ k s. inr (put_same s.counters k _);
  incr_other = λ k j s n. put_other s.counters k j _ n;
  incr_items = λ k j s. refl;
  incr_member = λ k j v s. refl;
  lpush_done = λ k v s n h. put_same s.lists k _;
  lpush_either = λ k v s. inl (put_same s.lists k _);
  lpush_other = λ k j v s n. put_other s.lists k j _ n;
  lpush_counter = λ k v j s. refl;
  brpop_done = λ w k s key v h. popped_value k (s.lists k) s key v refl h;
  brpop_nil = λ w k s h. popped_nil k (s.lists k) s h;
  brpop_either = λ w k s. popped_either k (s.lists k) s refl;
  brpop_other = λ w k j s n. popped_other k j (s.lists k) s n;
  brpop_counter = λ w k j s. ap (λ f. f j) (popped_counter k (s.lists k) s);
  sismember_answer = λ k v s b h. sym (ok-injective h);
  sismember_items = λ k v j s. refl;
  sismember_counter = λ k v j s. refl;
  sadd_member =
      λ k v s n h. rw (put_same s.sets k (put (s.sets k) v true)) (put_same (s.sets k) v true);
  sadd_kept =
      λ k v w s h. rw (put_same s.sets k (put (s.sets k) v true)) (put_true (s.sets k) v w h);
  srem_member =
      λ k v s n h. rw (put_same s.sets k (put (s.sets k) v false)) (put_same (s.sets k) v false);
}
