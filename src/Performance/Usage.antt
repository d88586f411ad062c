-- ===== src/Performance/Usage.antt =====
-- The use of the processor.
use kernelc_moderne.Prelude.{ℕ, ◌≡◌, ◌≤◌, ◌<◌, refl, ◌+◌, ◌-◌, ◌*◌, ◌%◌, arith}
use kernelc_moderne.Performance.{word, CpuTimes, PerformanceMetrics, get_cpu_utilization}

-- The times after they have gone on by some amounts; their counters of 64 bits may start again at 0.
unfoldable pub after : CpuTimes → ℕ → ℕ → ℕ → CpuTimes
after t idle kernel user = record {
  idle = (t.idle + idle) % word;
  kernel = (t.kernel + kernel) % word;
  user = (t.user + user) % word;
}

-- If since the last measurement the time in the kernel has gone on by at least the idle time, which
-- is a part of it, and kernel and user together by less than 2^64: the code finds exactly the time that
-- was not idle, and the total, whether or not a counter has started again. Their quotient is at
-- most 100 percent, and the next measurement counts from here.
pub get_cpu_utilization-after :
    {Metric : Type 0} (p : PerformanceMetrics Metric) (idle kernel user : ℕ)
    → p.last.idle < word
    → p.last.kernel < word
    → p.last.user < word
    → idle ≤ kernel
    → kernel + user < word
    → let now = after p.last idle kernel user in
      (get_cpu_utilization now p ≡ (record p { last = now }, (kernel + user - idle, kernel + user)))
      × ((kernel + user - idle) * 100 ≤ 100 * (kernel + user))
unfolding get_cpu_utilization after
get_cpu_utilization-after p idle kernel user hi hk hu h small =
    let i : ((p.last.idle + idle) % word + (word - p.last.idle)) % word ≡ idle =
      omega (arith, hi, h, small) in
    let k : ((p.last.kernel + kernel) % word + (word - p.last.kernel)) % word ≡ kernel =
      omega (arith, hk, small) in
    let u : ((p.last.user + user) % word + (word - p.last.user)) % word ≡ user =
      omega (arith, hu, small) in
    let t : (kernel + user) % word ≡ kernel + user = omega (arith, small) in
    let a : (kernel + user + (word - idle)) % word ≡ kernel + user - idle =
      omega (arith, h, small) in
    (rw (i, k, u, t, a) refl, omega arith)
