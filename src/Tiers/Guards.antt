-- ===== src/Tiers/Guards.antt =====
-- What no tier rule can change: the private and retired filters, and the servers of a scope.
use wizteros.Common.{
  to_list, keep, Member, contains, distinct, contains-distinct, Member-keep, keep-Member,
  contains-flat_map, truthy, contains-sorted, String, ◌≡◌, refl, ◌↔◌, Bool, true, false, not, ◌&&◌,
  some, List, arith, eq_refl,
}
use wizteros.Tiers.Rules.{
  Tier, bronze, silver, gold, WizarrLibrary, is_4k, is_private, is_on_share_server, tier_wants,
  is_enabled, shareable_libraries,
}
use wizteros.Tiers.Scope.{server_names_of, resolve_tier_access_by}

-- A library is shareable exactly when it is listed, enabled, wanted by the rule, on a named server
-- that is not retired, and not private. This holds of whatever rule is handed in.
pub shareable_libraries_iff :
    (wants : Tier → WizarrLibrary → Bool) (tier : Tier) (libraries : List WizarrLibrary)
    (l : WizarrLibrary)
    → Member l (shareable_libraries wants tier libraries) ↔ (
        Member l libraries
        × ((is_enabled l && wants tier l && (is_on_share_server l && not (is_private l))) ≡ true))
unfolding shareable_libraries
shareable_libraries_iff wants tier libraries l = (to, from)
  where
    wanted : WizarrLibrary → Bool
    wanted k = is_enabled k && wants tier k

    guarded : WizarrLibrary → Bool
    guarded k = is_on_share_server k && not (is_private k)

    to :
        Member l (keep guarded (keep wanted libraries))
        → Member l libraries × ((wanted l && guarded l) ≡ true)
    to m =
        let (m', g) = Member-keep guarded l (keep wanted libraries) m in
        let (m'', w) = Member-keep wanted l libraries m' in (m'', rw (w, g) refl)

    from :
        Member l libraries × ((wanted l && guarded l) ≡ true)
        → Member l (keep guarded (keep wanted libraries))
    from (m, e) =
        keep-Member guarded l (keep wanted libraries)
          (keep-Member wanted l libraries m (ground arith)) (ground arith)

bronze-wants : (l : WizarrLibrary) → tier_wants bronze l ≡ not (is_4k l)
unfolding tier_wants
bronze-wants l = refl

silver-wants : (l : WizarrLibrary) → tier_wants silver l ≡ true
unfolding tier_wants
silver-wants l = refl

-- Bronze grants exactly the libraries of silver whose title does not start with 4K, and gold grants
-- exactly those of silver.
pub tier_order :
    (libraries : List WizarrLibrary) (l : WizarrLibrary)
    → (Member l (shareable_libraries tier_wants bronze libraries)
        ↔ (Member l (shareable_libraries tier_wants silver libraries) × (is_4k l ≡ false)))
      × (shareable_libraries tier_wants gold libraries
          ≡ shareable_libraries tier_wants silver libraries)
tier_order libraries l = ((to, from), (unfold shareable_libraries tier_wants in refl))
  where
    to :
        Member l (shareable_libraries tier_wants bronze libraries)
        → Member l (shareable_libraries tier_wants silver libraries) × (is_4k l ≡ false)
    to m =
        let (listed, e) = (shareable_libraries_iff tier_wants bronze libraries l).0 m in
        (
          (shareable_libraries_iff tier_wants silver libraries l).1
              (listed, ground (arith, silver-wants l)),
          ground (arith, bronze-wants l),
        )

    from :
        Member l (shareable_libraries tier_wants silver libraries) × (is_4k l ≡ false)
        → Member l (shareable_libraries tier_wants bronze libraries)
    from (m, narrow) =
        let (listed, e) = (shareable_libraries_iff tier_wants silver libraries l).0 m in
        (shareable_libraries_iff tier_wants bronze libraries l).1
          (listed, ground (arith, bronze-wants l))

truthy_of_on_share :
    (l : WizarrLibrary) (server : String)
    → l.server_name ≡ some server
    → is_on_share_server l ≡ true
    → contains (to_list (truthy l.server_name)) server ≡ true
unfolding is_on_share_server
truthy_of_on_share l server e h = rw e (ground (arith, eq_refl server))

-- Every library that a scope carries, on whatever rule, stands on a server that the scope names.
pub scope_covers_libraries :
    (wants : Tier → WizarrLibrary → Bool) (tier : Tier) (libraries : List WizarrLibrary)
    (l : WizarrLibrary) (server : String)
    → Member l (shareable_libraries wants tier libraries)
    → l.server_name ≡ some server
    → contains (resolve_tier_access_by wants tier libraries).server_names server ≡ true
unfolding resolve_tier_access_by
scope_covers_libraries wants tier libraries l server m e =
    let (_, guarded) = (shareable_libraries_iff wants tier libraries l).0 m in
    let names = server_names_of (shareable_libraries wants tier libraries) in
    rw (contains-sorted (distinct names) server, contains-distinct names server)
      (contains-flat_map (λ k. to_list (truthy k.server_name)) l
        (shareable_libraries wants tier libraries) server m
        (truthy_of_on_share l server e (ground arith)))
