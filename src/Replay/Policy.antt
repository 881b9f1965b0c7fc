-- ===== src/Replay/Policy.antt =====
-- The resource policy of a replay specification is read back from its payload.
use mathlib.Core.Path.{subst}
use rechnungsprobe.Prelude.{
  ℕ, zero, suc, ◌+◌, ◌-◌, ◌≤◌, leb, leb→le, ◌*◌, ◌/◌, ◌%◌, Bool, true, false, not, ◌&&◌, ltb, some,
  ◌≡◌, refl, arith,
}
use rechnungsprobe.Prelude.Int.{ℤ, pos, negsuc, ltb_ℤ}
use rechnungsprobe.Errors.{ok, ok-injective, guard, guard-eq-ok, >>=-eq-ok, >>-eq-ok}
use rechnungsprobe.Json.{integer}
use rechnungsprobe.Process.{ProcessPolicy, millisecond, rounded_milliseconds}
use rechnungsprobe.Replay.Defs.{
  PolicyPayload, between, is_capped, tolerance, milliseconds, policy_payload,
}
use rechnungsprobe.Replay.Write.{policy_members}
use rechnungsprobe.Replay.Read.{read_integer, seconds, read_policy}

-- A number of seconds that was rounded to whole milliseconds, by at most 10^-12 seconds
abbrev pub IsRounded : ℤ → ℤ → Type 0
IsRounded (pos n) (pos r) = (r % millisecond ≡ 0) × (n ≤ r + tolerance) × (r ≤ n + tolerance)
IsRounded (pos n) (negsuc r) = ⊥
IsRounded (negsuc n) r = ⊥

milliseconds-IsRounded : (v m : ℤ) → milliseconds v ≡ ok m → IsRounded v (seconds m)
unfolding milliseconds
milliseconds-IsRounded (negsuc n) m h = cc h
milliseconds-IsRounded (pos n) m h =
    let (_, h1) = >>-eq-ok (guard (ltb 0 n) _) _ h in
    let k = rounded_milliseconds n in
    let (near, h2) =
      >>-eq-ok (guard (leb (n - k * millisecond + (k * millisecond - n)) tolerance) _) _ h1 in
    let close = leb→le _ _ (guard-eq-ok _ _ near) in
    subst (λ x. IsRounded (pos n) (seconds x)) (ok-injective h2)
      (omega arith, omega arith, omega arith)

rounded-whole : (k : ℕ) → rounded_milliseconds (k * millisecond) ≡ k
unfolding rounded_milliseconds
rounded-whole k =
    let part : k * millisecond % millisecond ≡ 0 = omega arith in
    let whole : k * millisecond / millisecond ≡ k = omega arith in rw (part, whole) refl

milliseconds-seconds :
    (high : ℕ) (m : ℤ) → between 1 high m ≡ true → milliseconds (seconds m) ≡ ok m
unfolding milliseconds
milliseconds-seconds high (negsuc n) h = absurd (ground arith)
milliseconds-seconds high (pos zero) h = ground arith
milliseconds-seconds high (pos (suc n)) h =
    let positive : ltb 0 (suc n * millisecond) ≡ true = ground arith in
    let same : leb
          (suc n * millisecond - suc n * millisecond + (suc n * millisecond - suc n * millisecond))
          tolerance
        ≡ true =
      ground arith in
    rw (positive, rounded-whole (suc n), same) refl

-- The policy that is read back
pub record IsReadBack (p r : ProcessPolicy) : Type 0 where
  pub cpu : IsRounded p.cpu_seconds r.cpu_seconds
  pub poll : IsRounded p.poll_interval_seconds r.poll_interval_seconds
  pub timeout : IsRounded p.timeout_seconds r.timeout_seconds
  pub created : r.max_created_files ≡ p.max_created_files
  pub growth : r.max_file_growth_bytes ≡ p.max_file_growth_bytes
  pub input : r.max_input_bytes ≡ p.max_input_bytes
  pub memory : r.max_memory_bytes ≡ p.max_memory_bytes
  pub output : r.max_output_bytes ≡ p.max_output_bytes
  pub processes : r.max_processes ≡ p.max_processes

and_both : (a b : Bool) → (a && b) ≡ true → (a ≡ true) × (b ≡ true)
and_both true b h = (refl, h)
and_both false b h = cc h

-- A value between the bounds is read.
read_integer-between :
    (low high : ℕ) (value : ℤ)
    → between low high value ≡ true
    → read_integer low (some (integer value)) ≡ ok value
read_integer-between low high value h = rw ((and_both (not (ltb_ℤ value (pos low))) _ h).0) refl

-- The policy that the payload's values stand for
abbrev pub policy_of : PolicyPayload → ProcessPolicy
policy_of q = record {
  timeout_seconds = seconds q.timeout_milliseconds;
  cpu_seconds = seconds q.cpu_milliseconds;
  max_memory_bytes = q.max_memory_bytes;
  max_processes = q.max_processes;
  max_output_bytes = q.max_output_bytes;
  max_input_bytes = q.max_input_bytes;
  max_file_growth_bytes = q.max_file_growth_bytes;
  max_created_files = q.max_created_files;
  poll_interval_seconds = seconds q.poll_milliseconds;
}

record IsPayload (p : ProcessPolicy) (q : PolicyPayload) : Type 0 where
  read_back : IsReadBack p (policy_of q)
  capped : is_capped q ≡ true

policy_payload-IsPayload :
    (p : ProcessPolicy) (q : PolicyPayload) → policy_payload p ≡ ok q → IsPayload p q
unfolding policy_payload
policy_payload-IsPayload p q h =
    let (cpu, paid_cpu, h1) = >>=-eq-ok (milliseconds p.cpu_seconds) _ h in
    let (poll, paid_poll, h2) = >>=-eq-ok (milliseconds p.poll_interval_seconds) _ h1 in
    let (timeout, paid_timeout, h3) = >>=-eq-ok (milliseconds p.timeout_seconds) _ h2 in
    let payload : PolicyPayload = record {
      cpu_milliseconds = cpu;
      max_created_files = p.max_created_files;
      max_file_growth_bytes = p.max_file_growth_bytes;
      max_input_bytes = p.max_input_bytes;
      max_memory_bytes = p.max_memory_bytes;
      max_output_bytes = p.max_output_bytes;
      max_processes = p.max_processes;
      poll_milliseconds = poll;
      timeout_milliseconds = timeout;
    } in
    let (capped, h4) = >>-eq-ok (guard (is_capped payload) _) _ h3 in
    let same : payload ≡ q = cc h4 in
    subst (λ x. IsPayload p x) same
      (record {
        read_back = record {
          cpu = milliseconds-IsRounded p.cpu_seconds cpu paid_cpu;
          poll = milliseconds-IsRounded p.poll_interval_seconds poll paid_poll;
          timeout = milliseconds-IsRounded p.timeout_seconds timeout paid_timeout;
          created = refl;
          growth = refl;
          input = refl;
          memory = refl;
          output = refl;
          processes = refl;
        };
        capped = guard-eq-ok _ _ capped;
      })

pub read_policy-policy_members :
    (p : ProcessPolicy) (q : PolicyPayload)
    → policy_payload p ≡ ok q
    → (read_policy (policy_members q) ≡ ok (policy_of q)) × IsReadBack p (policy_of q)
unfolding read_policy policy_payload
read_policy-policy_members p q h =
    let k = policy_payload-IsPayload p q h in
    let (cpu, b1) = and_both (between 1 120000 q.cpu_milliseconds) _ k.capped in
    let (created, b2) = and_both (between 0 1024 q.max_created_files) _ b1 in
    let (growth, b3) = and_both (between 0 (64 * 1024 * 1024) q.max_file_growth_bytes) _ b2 in
    let (input, b4) = and_both (between 1 (2 * 1024 * 1024) q.max_input_bytes) _ b3 in
    let (memory, b5) = and_both (between 1 (1024 * 1024 * 1024) q.max_memory_bytes) _ b4 in
    let (output, b6) = and_both (between 0 (16 * 1024 * 1024) q.max_output_bytes) _ b5 in
    let (processes, b7) = and_both (between 1 32 q.max_processes) _ b6 in
    let (poll, timeout) = and_both (between 1 1000 q.poll_milliseconds) _ b7 in
    (
      rw
          (
            read_integer-between 1 120000 _ timeout,
            read_integer-between 1 120000 _ cpu,
            read_integer-between 1 (1024 * 1024 * 1024) _ memory,
            read_integer-between 1 32 _ processes,
            read_integer-between 0 (16 * 1024 * 1024) _ output,
            read_integer-between 1 (2 * 1024 * 1024) _ input,
            read_integer-between 0 (64 * 1024 * 1024) _ growth,
            read_integer-between 0 1024 _ created,
            read_integer-between 1 1000 _ poll,
            milliseconds-seconds 120000 q.cpu_milliseconds cpu,
            milliseconds-seconds 1000 q.poll_milliseconds poll,
            milliseconds-seconds 120000 q.timeout_milliseconds timeout,
            k.capped,
          )
          refl,
      k.read_back,
    )
