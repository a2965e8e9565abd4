-- ===== src/RateLimit/Limit.antt =====
-- The limits that one replica enforces: `effective_quota_limits`, `zero_share_dimensions` and
-- `sync_from_settings` of `src/foundry_router/ratelimit.py`. The configuration admits no negative
-- limit and no negative share.
pub mod Share
mod Tests
use foundry_router.Base.{
  ℕ, ◌/◌, Option, none, some, List, [], ◌∷◌, ◌++◌, ◌==◌, nat_eq, if◌then◌else◌,
}
use foundry_router.Base.Dict.{Dict}
use foundry_router.RateLimit.{Limits, Age, Store}

-- `limit // share`, and 0 where no replica has a share.
pub share_of : ℕ → ℕ → ℕ
share_of share limit = if share == 0 then 0 else limit / share

abbrev pub map_option : (ℕ → ℕ) → Option ℕ → Option ℕ
map_option f none = none
map_option f (some a) = some (f a)

pub share_limits : ℕ → Limits → Limits
unfolding share_of
share_limits share l = record {
  rpm = map_option (share_of share) l.rpm;
  tpm = map_option (share_of share) l.tpm;
  rpd = map_option (share_of share) l.rpd;
}

pub effective_quota_limits : Dict ℕ Limits → ℕ → Dict ℕ Limits
unfolding share_limits
effective_quota_limits [] share = []
effective_quota_limits ((g, l) ∷ d) share =
    (g, share_limits share l) ∷ effective_quota_limits d share

-- The names of the limits, in their order as strings.
pub data Dimension : Type 0 where
  rpd rpm tpm : Dimension

pub zero_dimension : ℕ → Dimension → Option ℕ → List (ℕ × Dimension)
zero_dimension g dim none = []
zero_dimension g dim (some limit) = if limit == 0 then (g, dim) ∷ [] else []

-- The pairs of a group and a dimension whose share is 0. A dictionary of limits may list its
-- dimensions in any order; here it is rpm, tpm, rpd.
pub zero_share_dimensions : Dict ℕ Limits → ℕ → List (ℕ × Dimension)
unfolding zero_dimension share_limits
zero_share_dimensions [] share = []
zero_share_dimensions ((g, l) ∷ d) share =
    zero_dimension g rpm (share_limits share l).rpm
    ++ (zero_dimension g tpm (share_limits share l).tpm
        ++ (zero_dimension g rpd (share_limits share l).rpd ++ zero_share_dimensions d share))

-- What the store reads of the settings.
pub record Settings : Type 0 where
  pub quota_group_rate_limits : Dict ℕ Limits
  pub rate_limit_replica_share : ℕ
  pub reservation_max_age_seconds : Age

pub sync_from_settings : Store → Settings → Store
unfolding effective_quota_limits
sync_from_settings s settings = record s {
  quota_limits =
      effective_quota_limits settings.quota_group_rate_limits settings.rate_limit_replica_share;
  reservation_max_age = settings.reservation_max_age_seconds;
}
