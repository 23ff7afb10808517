-- ===== src/Poller/Counts/Gauges.antt =====
-- What the loops over a two-level map leave in the gauges.
use bcrstracking.Prelude.{
  ℕ, ◌+◌, string_keys, String, [], ◌∷◌, if◌then◌else◌, ◌==◌, ◌&&◌, ◌≡◌, refl, ap, ◌∙◌, arith, All,
}
use bcrstracking.Prelude.GoMap.{
  Entries, lookup, insert, get_or, get_or-insert, value_or, HasDistinctKeys, HasDistinctKeys-insert,
  All-insert, All-get_or,
}
use bcrstracking.Metrics.{Metrics}
use bcrstracking.Poller.Counts.{Counts, accumulate, set_suppliers, set_gauges}

unfoldable pub count_at : String → String → Counts → ℕ
count_at group supplier counts = get_or 0 supplier (get_or [] group counts)

pub count_at-empty : (group supplier : String) → count_at group supplier [] ≡ 0
unfolding count_at get_or lookup
count_at-empty group supplier = refl

pub count_at-accumulate :
    (s u : String) (n : ℕ) (group supplier : String) (counts : Counts)
    → count_at group supplier (accumulate s u n counts) ≡ (
        if s == group && u == supplier
        then count_at group supplier counts + n
        else count_at group supplier counts)
unfolding count_at accumulate
count_at-accumulate s u n group supplier counts =
    rw
      (get_or-insert [] (insert u (get_or 0 u (get_or [] s counts) + n) (get_or [] s counts)) s
        group counts)
      (ground (
        arith,
        string_keys.equals_iff s group,
        string_keys.equals_iff u supplier,
        get_or-insert 0 (get_or 0 u (get_or [] s counts) + n) u supplier (get_or [] s counts),
      ))

-- Both levels of the map have distinct keys.
abbrev pub IsNested : Counts → Type 0
IsNested counts = HasDistinctKeys counts × All (λ entry. HasDistinctKeys entry.1) counts

pub accumulate-IsNested :
    (s u : String) (n : ℕ) (counts : Counts) → IsNested counts → IsNested (accumulate s u n counts)
unfolding accumulate
accumulate-IsNested s u n counts d = (
  HasDistinctKeys-insert s _ counts d.0,
  All-insert HasDistinctKeys s _ counts
      (HasDistinctKeys-insert u _ (get_or [] s counts)
        (All-get_or HasDistinctKeys [] s counts tt d.1))
      d.1,
)

-- A setter that moves the gauge of its own pair, and no other.
module _ (put : String → String → ℕ → Metrics → Metrics) (gauge : String → String → Metrics → ℕ)
    (gauge-put : (s u group supplier : String) (count : ℕ) (m : Metrics)
      → gauge group supplier (put s u count m)
        ≡ (if s == group && u == supplier then count else gauge group supplier m)) where
  gauge-set_suppliers :
      (s group supplier : String) (suppliers : Entries String ℕ) (m : Metrics)
      → HasDistinctKeys suppliers
      → gauge group supplier (set_suppliers put s suppliers m) ≡ (
          if s == group
          then value_or (gauge group supplier m) (lookup supplier suppliers)
          else gauge group supplier m)
  unfolding set_suppliers lookup
  gauge-set_suppliers s group supplier [] m d = ground arith
  gauge-set_suppliers s group supplier ((u, count) ∷ rest) m d = ground (
    arith,
    gauge-set_suppliers s group supplier rest (put s u count m) d.1,
    gauge-put s u group supplier count m,
    string_keys.equals_iff u supplier,
    string_keys.equals_iff s group,
  )

  gauge_or-set_gauges :
      (group supplier : String) (counts : Counts) (m : Metrics)
      → IsNested counts
      → gauge group supplier (set_gauges put counts m)
        ≡ value_or (gauge group supplier m) (lookup supplier (get_or [] group counts))
  unfolding set_gauges get_or lookup
  gauge_or-set_gauges group supplier [] m d = refl
  gauge_or-set_gauges group supplier ((s, suppliers) ∷ rest) m d = ground (
    arith,
    gauge_or-set_gauges group supplier rest (set_suppliers put s suppliers m) (d.0.1, d.1.1),
    gauge-set_suppliers s group supplier suppliers m d.1.0,
    string_keys.equals_iff s group,
    d.0.0,
  )

  -- From a gauge that stands at 0, the loops leave the count of the pair.
  pub gauge-set_gauges :
      (group supplier : String) (counts : Counts) (m : Metrics)
      → IsNested counts
      → gauge group supplier m ≡ 0
      → gauge group supplier (set_gauges put counts m) ≡ count_at group supplier counts
  unfolding count_at get_or
  gauge-set_gauges group supplier counts m d zeroed =
      gauge_or-set_gauges group supplier counts m d
      ∙ ap (λ old. value_or old (lookup supplier (get_or [] group counts))) zeroed
