-- ===== src/Server/Replication/Quorum.antt =====
-- The count of the replies in crates/kamino-server/src/replication.rs.
use kamino.Prelude.{
  ℕ, suc, ◌+◌, ◌%◌, ◌^◌, ◌<◌, ◌≡◌, ◌≢◌, ◌⊎◌, refl, true, false, List, [], ◌∷◌, Option, none, some,
  arith, inl, inr, Bool-cases, length, ap, ◌∙◌,
}
use kamino.Protocol.Frame.{
  Frame, simple_string, error, integer, bulk, null_array, array, map_frame, set_frame, push_frame,
  boolean, double, null, big_number,
}
use kamino.Prelude.Int.{ℤ}
use kamino.Server.Replication.{
  Reply, replied, failed, is_ok, is_ack, reason, or_first, FirstError, backup_error,
  unexpected_reply, transport_error, ReplicationOutcome, default, count_reply, aggregate_from,
  aggregate, forward_all, replicate,
}

-- The replies that acknowledge a write: the text `OK`, an integer, and a bulk string or its null.
pub data Acknowledges : Reply → Type 0 where
  said_ok : Acknowledges (replied (simple_string (79 ∷ 75 ∷ [])))
  counted : (n : ℤ) → Acknowledges (replied (integer n))
  answered : (b : Option (List ℕ)) → Acknowledges (replied (bulk b))

-- The replies that do not, with the reason that is kept of them.
pub data Refuses : Reply → FirstError → Type 0 where
  unreachable : (e : List ℕ) → Refuses (failed e) (transport_error e)
  reported : (e : List ℕ) → Refuses (replied (error e)) (backup_error e)
  surprising :
      (f : Frame)
      → ¬ Acknowledges (replied f)
      → ((e : List ℕ) → f ≢ error e)
      → Refuses (replied f) (unexpected_reply f)

-- How many replies acknowledge, how many do not, and the reason of the first of these.
pub data Tally : List Reply → (acks failures : ℕ) → Option FirstError → Type 0 where
  no_replies : Tally [] 0 0 none
  acknowledged :
      {r : Reply} {rs : List Reply} {acks failures : ℕ} {first : Option FirstError}
      → Acknowledges r
      → Tally rs acks failures first
      → Tally (r ∷ rs) (suc acks) failures first
  refused :
      {r : Reply} {rs : List Reply} {acks failures : ℕ} {first : Option FirstError} {e : FirstError}
      → Refuses r e
      → Tally rs acks failures first
      → Tally (r ∷ rs) acks (suc failures) (some e)

Acknowledges-is_ack : (r : Reply) → Acknowledges r → is_ack r ≡ true
Acknowledges-is_ack _ said_ok = refl
Acknowledges-is_ack _ (counted n) = refl
Acknowledges-is_ack _ (answered b) = refl

unacknowledged : (f : Frame) → is_ack (replied f) ≡ false → ¬ Acknowledges (replied f)
unacknowledged f h a = absurd (ground (arith, Acknowledges-is_ack (replied f) a))

is_ok-said : (s : List ℕ) → is_ok s ≡ true → Acknowledges (replied (simple_string s))
is_ok-said [] h = absurd (ground arith)
is_ok-said (o ∷ []) h = absurd (ground arith)
is_ok-said (o ∷ k ∷ []) h =
    let o' : o ≡ 79 = ground arith in let k' : k ≡ 75 = ground arith in rw (o', k') said_ok
is_ok-said (o ∷ k ∷ x ∷ s) h = absurd (ground arith)

surprise :
    (f : Frame)
    → is_ack (replied f) ≡ false
    → ((e : List ℕ) → f ≢ error e)
    → Refuses (replied f) (unexpected_reply f)
surprise f h other = surprising f (unacknowledged f h) other

is_ack-cases :
    (r : Reply) → ((is_ack r ≡ true) × Acknowledges r) ⊎ ((is_ack r ≡ false) × Refuses r (reason r))
is_ack-cases (failed e) = inr (refl, unreachable e)
is_ack-cases (replied (error e)) = inr (refl, reported e)
is_ack-cases (replied (integer n)) = inl (refl, counted n)
is_ack-cases (replied (bulk b)) = inl (refl, answered b)
is_ack-cases (replied (simple_string s)) = elim (Bool-cases (is_ok s)) [
  | inl said ↦ inl (said, is_ok-said s said)
  | inr other ↦ inr (other, surprise (simple_string s) other λ e p. cc)
]
is_ack-cases (replied null_array) = inr (refl, surprise null_array refl λ e p. cc)
is_ack-cases (replied (array fs)) = inr (refl, surprise (array fs) refl λ e p. cc)
is_ack-cases (replied (map_frame ps)) = inr (refl, surprise (map_frame ps) refl λ e p. cc)
is_ack-cases (replied (set_frame fs)) = inr (refl, surprise (set_frame fs) refl λ e p. cc)
is_ack-cases (replied (push_frame fs)) = inr (refl, surprise (push_frame fs) refl λ e p. cc)
is_ack-cases (replied (boolean b)) = inr (refl, surprise (boolean b) refl λ e p. cc)
is_ack-cases (replied (double d)) = inr (refl, surprise (double d) refl λ e p. cc)
is_ack-cases (replied null) = inr (refl, surprise null refl λ e p. cc)
is_ack-cases (replied (big_number n)) = inr (refl, surprise (big_number n) refl λ e p. cc)

Tally-length :
    {rs : List Reply} {acks failures : ℕ} {first : Option FirstError}
    → Tally rs acks failures first
    → acks + failures ≡ length rs
Tally-length no_replies = refl
Tally-length (acknowledged a t) = omega (arith, Tally-length t)
Tally-length (refused e t) = omega (arith, Tally-length t)

-- The first reason, where one is there before.
abbrev kept : Option FirstError → Option FirstError → Option FirstError
kept none first = first
kept (some e) first = some e

kept-or_first :
    (o : Option FirstError) (e : FirstError) (first : Option FirstError)
    → kept (or_first o e) first ≡ kept o (some e)
kept-or_first none e first = refl
kept-or_first (some x) e first = refl

kept-none : (o : Option FirstError) → o ≡ kept o none
kept-none none = refl
kept-none (some e) = refl

-- The outcome is what was counted before, and a tally of the replies.
abbrev IsCounted : ReplicationOutcome → List Reply → ReplicationOutcome → Type 0
IsCounted out rs out' =
    (acks : ℕ) × (failures : ℕ) × (first : Option FirstError) × Tally rs acks failures first
    × (out'.acks ≡ out.acks + acks)
    × (out'.failures ≡ out.failures + failures)
    × (out'.first_error ≡ kept out.first_error first)

aggregate_from-IsCounted :
    (out : ReplicationOutcome) (rs : List Reply)
    → out.acks + out.failures + length rs < 2 ^ 32
    → IsCounted out rs (aggregate_from out rs)
unfolding aggregate_from count_reply
aggregate_from-IsCounted out [] small =
    (0, 0, none, no_replies, omega arith, omega arith, kept-none out.first_error)
aggregate_from-IsCounted out (r ∷ rs) small = elim (is_ack-cases r) [
  | inl (ack, a) ↦
      let same : (out.acks + 1) % 2 ^ 32 ≡ out.acks + 1 = omega (arith, small) in
      let c : (count_reply out r).acks ≡ out.acks + 1 = rw ack same in
      let d : (count_reply out r).failures ≡ out.failures = rw ack refl in
      let g : (count_reply out r).first_error ≡ out.first_error = rw ack refl in
      let (acks, failures, first, t, p, q, o) =
        aggregate_from-IsCounted (count_reply out r) rs (omega (arith, c, d, small)) in
      (
        suc acks,
        failures,
        first,
        acknowledged a t,
        omega (arith, p, c),
        omega (arith, q, d),
        o ∙ ap (λ x. kept x first) g,
      )
  | inr (nack, e) ↦
      let same : (out.failures + 1) % 2 ^ 32 ≡ out.failures + 1 = omega (arith, small) in
      let c : (count_reply out r).acks ≡ out.acks = rw nack refl in
      let d : (count_reply out r).failures ≡ out.failures + 1 = rw nack same in
      let g : (count_reply out r).first_error ≡ or_first out.first_error (reason r) =
        rw nack refl in
      let (acks, failures, first, t, p, q, o) =
        aggregate_from-IsCounted (count_reply out r) rs (omega (arith, c, d, small)) in
      (
        acks,
        suc failures,
        some (reason r),
        refused e t,
        omega (arith, p, c),
        omega (arith, q, d),
        o ∙ ap (λ x. kept x first) g ∙ kept-or_first out.first_error (reason r) first,
      )
]

length-forward_all :
    {Command : Type 0} (forward_command : ℕ → Command → Reply) (backups : List ℕ) (cmd : Command)
    → length (forward_all forward_command backups cmd) ≡ length backups
unfolding forward_all
length-forward_all f [] cmd = refl
length-forward_all f (b ∷ backups) cmd = ground (arith, length-forward_all f backups cmd)

-- A fan-out to fewer than 2^32 backups counts the replies: the acks are the replies with the text
-- OK, an integer or a bulk string or null, the failures are the errors, the other frames and the
-- transport errors, with the reason of the first of them kept, and both together are the backups.
pub replicate-counts :
    {Command : Type 0} (forward_command : ℕ → Command → Reply) (backups : List ℕ) (cmd : Command)
    → length backups < 2 ^ 32
    → Tally
        (forward_all forward_command backups cmd)
        (replicate forward_command backups cmd).acks
        (replicate forward_command backups cmd).failures
        (replicate forward_command backups cmd).first_error
      × ((replicate forward_command backups cmd).acks
            + (replicate forward_command backups cmd).failures
          ≡ length backups)
unfolding replicate aggregate default
replicate-counts f backups cmd small =
    let n = length-forward_all f backups cmd in
    let (acks, failures, first, t, p, q, o) =
      aggregate_from-IsCounted default (forward_all f backups cmd) (omega (arith, n)) in
    let a : (aggregate_from default (forward_all f backups cmd)).acks ≡ acks = omega (arith, p) in
    let b : (aggregate_from default (forward_all f backups cmd)).failures ≡ failures =
      omega (arith, q) in
    (rw (a, b, o) t, omega (arith, p, q, n, Tally-length t))
