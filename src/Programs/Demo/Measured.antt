-- ===== src/Programs/Demo/Measured.antt =====
-- The latencies of the third demo.
use market_data_parser.Common.{
  ℕ, zero, suc, ◌-◌, ◌*◌, ◌/◌, ◌++◌, ◌≡◌, refl, ap, ◌∙◌, some, List, [], ◌∷◌, length, codes,
  get_elem?, arith,
}
use market_data_parser.Wire.Scalars.{IsU64}
use market_data_parser.Feed.{DemoMessageGenerator, create_add_order}
use market_data_parser.Feed.Demo.{Inputs, parse-create_add_order}
use market_data_parser.SystemUtils.{Kernel}
use market_data_parser.Programs.{Reading, latency}
use market_data_parser.Programs.Latencies.{
  sort, length-sort, get_elem?-sort, IsRank, spans, length-spans,
}
use market_data_parser.Programs.Demo.{Report, report, measure, demo_performance_features}
use market_data_parser.Programs.Demo.Printing.{unpadded}

-- Each figure is the latency of its rank.
pub record IsReport (latencies : List ℕ) (r : Report) : Type 0 where
  pub min : IsRank latencies 0 r.min
  pub median : IsRank latencies (length latencies / 2) r.median
  pub p99 : IsRank latencies (length latencies * 99 / 100) r.p99
  pub max : IsRank latencies (length latencies - 1) r.max

-- The report for given elements of the sorted latencies.
report-elements :
    (xs : List ℕ) (r : Report)
    → get_elem? (sort xs) 0 ≡ some r.min
    → get_elem? (sort xs) (length xs / 2) ≡ some r.median
    → get_elem? (sort xs) (length xs * 99 / 100) ≡ some r.p99
    → get_elem? (sort xs) (length xs - 1) ≡ some r.max
    → report xs ≡ some r
unfolding report
report-elements xs r ea em ep eb = rw (length-sort xs, ea, em, ep, eb) refl

-- The report on at least one latency.
report-IsReport :
    (latencies : List ℕ) (n : ℕ)
    → length latencies ≡ suc n
    → (r : Report) × (report latencies ≡ some r) × IsReport latencies r
report-IsReport xs n size =
    let (a, ea, ra) = get_elem?-sort xs 0 (omega arith) in
    let (m, em, rm) = get_elem?-sort xs (length xs / 2) (omega arith) in
    let (p, ep, rp) = get_elem?-sort xs (length xs * 99 / 100) (omega arith) in
    let (b, eb, rb) = get_elem?-sort xs (length xs - 1) (omega arith) in
    let r : Report = record { min = a; median = m; p99 = p; max = b } in
    (r, report-elements xs r ea em ep eb, record { min = ra; median = rm; p99 = rp; max = rb })

abbrev gen : DemoMessageGenerator
gen = record { seq = 0 }

-- The message that is parsed again and again.
abbrev pub msg : (now : ℕ) → List ℕ
msg now = (create_add_order gen now (codes "AAPL") b'B' 100 1500000).0

module _ (now : ℕ) (u64 : IsU64 now) (readings : ℕ → Reading) where
  inputs : Inputs now (codes "AAPL") b'B' 100 1500000
  inputs = record {
    now_u64 = u64;
    side_u8 = omega arith;
    shares_u32 = omega arith;
    price_u32 = omega arith;
    chars = omega arith;
    short = omega arith;
    unpadded = unpadded (codes "AAPL") 3 refl (omega arith);
  }

  -- Every parse of the message succeeds.
  measure-spans : (n : ℕ) → measure readings n (msg now) ≡ spans readings n
  unfolding measure latency
  measure-spans zero = refl
  measure-spans (suc i) =
      let (read, symbol, next) =
        parse-create_add_order gen now (codes "AAPL") b'B' 100 1500000 inputs (readings i).stamp in
      rw (measure, read) (ap (λ xs. xs ++ (latency (readings i) ∷ [])) (measure-spans i))

  -- The third demo reports on its ten thousand latencies: no access to them is out of range, and each figure
  -- is the latency of its rank. The clock for the message's time stamp has 64 bits.
  pub demo_performance_features-IsReport :
      {W C : Type 0} (kernel : Kernel W C) (w : W)
      → (r : Report) × ((demo_performance_features kernel now readings w).0 ≡ some r)
        × IsReport (spans readings 10000) r
  unfolding demo_performance_features
  demo_performance_features-IsReport kernel w =
      let (r, e, o) = report-IsReport (spans readings 10000) 9999 (length-spans readings 10000) in
      (r, ap report (measure-spans 10000) ∙ e, o)
