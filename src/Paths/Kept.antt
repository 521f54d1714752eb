-- ===== src/Paths/Kept.antt =====
-- A result stays while its thread makes no further call of the same function.
use code_strudy.Prelude.{
  ℕ, ◌≡◌, sym, ap, subst, ◌∙◌, ◌≢◌, inl, inr, false, ◌&&◌, some, List, [], ◌∷◌, arith, ◌==◌,
  if◌then◌else◌, Option-cases, All,
}
use code_strudy.CString.{Bytes}
use code_strudy.Paths.Defs.{Result, fault, null, text}
use code_strudy.Paths.Keys.{
  left_behind, result_of, own_buffer, Key, same_key, Store, Returned, no_store, calls, call, answer,
  Call,
}
use code_strudy.Paths.Buffers.{own_buffer-IsGrown, IsSeparate}

-- The store behind a call: its buffer has the result, the others are as they were.
record IsCalled (c : Call) (s : Store) (r : Returned) : Type 0 where
  buffer : ℕ
  valid : IsSeparate r.store
  owner : r.store.specific c.key c.thread ≡ some buffer
  others : (k : Key) (t p : ℕ) → s.specific k t ≡ some p → r.store.specific k t ≡ some p
  untouched : (p : ℕ) → p ≢ buffer → r.store.memory p ≡ s.memory p
  written :
      (t : Bytes) → result_of c ≡ text t → (r.pointer ≡ some buffer) × (r.store.memory buffer ≡ t)

answer-stored :
    (x : Result) (p : ℕ) (s : Store) (r : Returned)
    → answer x p s ≡ some r
    → (r.store ≡ s) × ((t : Bytes) → x ≡ text t → r.pointer ≡ some p)
unfolding answer
answer-stored (text t) p s r e = (ground arith, λ u h. ground arith)
answer-stored null p s r e = (ground arith, λ u h. ground arith)
answer-stored fault p s r e = absurd (ground arith)

call-IsCalled :
    (c : Call) (s : Store) (r : Returned) → IsSeparate s → call c s ≡ some r → IsCalled c s r
unfolding call
call-IsCalled c s r v e = elim (Option-cases (own_buffer c s)) [
  | inl stops ↦ absurd (ground (arith, stops))
  | inr ((q, u), got) ↦
      let (grown, owner) = own_buffer-IsGrown c s u q v got in
      let store : Store = record u {
        memory = λ x. if x == q then left_behind c (result_of c) else u.memory x;
      } in
      let (at, points) = answer-stored (result_of c) q store r (ground (arith, got)) in
      record {
        buffer = q;
        valid =
            subst IsSeparate (sym at)
              (record { allocated = grown.valid.allocated; separate = grown.valid.separate });
        owner = ap (λ (w : Store). w.specific c.key c.thread) at ∙ owner;
        others = λ k t p has. ap (λ (w : Store). w.specific k t) at ∙ grown.owned k t p has;
        untouched = λ p ne. ap (λ (w : Store). w.memory p) at ∙ ground (arith, ne, grown.same p);
        written = λ t is. (
          points t is,
          ap (λ (w : Store). w.memory q) at ∙ unfold left_behind in ground (arith, is),
        );
      }
]

-- A call of the other function, or in another thread.
unfoldable pub Away : Call → Call → Type 0
Away c d = (same_key d.key c.key && d.thread == c.thread) ≡ false

kept_by_call :
    (c d : Call) (p : ℕ) (s : Store) (r : Returned)
    → Away c d
    → IsSeparate s
    → s.specific c.key c.thread ≡ some p
    → call d s ≡ some r
    → (r.store.specific c.key c.thread ≡ some p) × (r.store.memory p ≡ s.memory p)
unfolding Away
kept_by_call c d p s r away v has e =
    let called = call-IsCalled d s r v e in
    let still = called.others c.key c.thread p has in
    let apart : p ≢ called.buffer = λ same.
      let mine =
        called.valid.separate d.key c.key d.thread c.thread called.buffer called.owner
          (still ∙ ap some same) in
      ground (arith, mine, away) in
    (still, called.untouched p apart)

kept_by_calls :
    (c : Call) (p : ℕ) (ds : List Call) (s u : Store)
    → All (Away c) ds
    → IsSeparate s
    → s.specific c.key c.thread ≡ some p
    → calls ds s ≡ some u
    → (u.specific c.key c.thread ≡ some p) × (u.memory p ≡ s.memory p)
unfolding calls
kept_by_calls c p [] s u away v has e =
    let same : s ≡ u = ground arith in
    (
      subst (λ (w : Store). w.specific c.key c.thread ≡ some p) same has,
      ap (λ (w : Store). w.memory p) (sym same),
    )
kept_by_calls c p (d ∷ ds) s u away v has e = elim (Option-cases (call d s)) [
  | inl stops ↦ absurd (ground (arith, stops))
  | inr (r, called) ↦
      let (still, same) = kept_by_call c d p s r away.0 v has called in
      let (ends, same_later) =
        kept_by_calls c p ds r.store u away.1 (call-IsCalled d s r v called).valid still
          (ground (arith, called)) in
      (ends, same_later ∙ same)
]

calls-IsSeparate :
    (ds : List Call) (s u : Store) → IsSeparate s → calls ds s ≡ some u → IsSeparate u
unfolding calls
calls-IsSeparate [] s u v e = let same : s ≡ u = ground arith in subst IsSeparate same v
calls-IsSeparate (d ∷ ds) s u v e = elim (Option-cases (call d s)) [
  | inl stops ↦ absurd (ground (arith, stops))
  | inr (r, called) ↦
      calls-IsSeparate ds r.store u (call-IsCalled d s r v called).valid (ground (arith, called))
]

no_store-IsSeparate : IsSeparate no_store
unfolding no_store
no_store-IsSeparate = record {
  allocated = λ k t p e. absurd (ground arith);
  separate = λ k l t u p e f. absurd (ground arith);
}

-- The pointer that a call returned, and what stands there later.
pub record Holds (c : Call) (t : Bytes) (r : Returned) (later : Store) : Type 0 where
  pub place : ℕ
  pub pointer : r.pointer ≡ some place
  pub owner : later.specific c.key c.thread ≡ some place
  pub content : later.memory place ≡ t

-- From a fresh start, when pthread_key_create and pthread_setspecific succeed, and for any calls
-- of the two functions in any threads: when a call has given a text, its pointer still leads to
-- that text after any further calls that do not end the program, of the other function or in other
-- threads.
pub calls-Holds :
    (before : List Call) (c : Call) (after : List Call) (s u : Store) (r : Returned) (t : Bytes)
    → calls before no_store ≡ some s
    → result_of c ≡ text t
    → call c s ≡ some r
    → All (Away c) after
    → calls after r.store ≡ some u
    → Holds c t r u
calls-Holds before c after s u r t first is called away later =
    let v = calls-IsSeparate before no_store s no_store-IsSeparate first in
    let x = call-IsCalled c s r v called in
    let (points, written) = x.written t is in
    let (owned, same) = kept_by_calls c x.buffer after r.store u away x.valid x.owner later in
    record { place = x.buffer; pointer = points; owner = owned; content = same ∙ written }
