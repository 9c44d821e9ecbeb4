-- ===== src/Health/Overall.antt =====
-- The overall status is the worst of the four.
use repro_vm_virtual_machine.Prelude.{
  ◌≤◌, refl, ◌≡◌, ◌∙◌, arith, inl, inr, ◌↔◌, Bool-cases, Text, ap,
}
use Prim.Native.Nat.{max}
use repro_vm_virtual_machine.Health.{
  health_ok, health_warning, health_unknown, Sys, SystemHealth, rank, health_check_all,
  health_critical, HealthStatus, raise, health_check_cache, health_check_cas, ltb,
  health_check_memory, health_check_disk, HealthCheckResult, health_ok,
}

module _ (sys : Sys) (cache_dir : Text) where
  rank-raise : (a b : HealthStatus) → rank (raise sys cache_dir a b) ≡ max (rank a) (rank b)
  rank-raise a b = elim (Bool-cases (ltb (rank a) (rank b))) [
    | inl less ↦ rw less (ground arith)
    | inr more ↦ rw more (ground arith)
  ]

  cache-not_worse : rank (health_check_cache sys cache_dir).status ≤ 1
  unfolding health_check_cache
  cache-not_worse = ground arith

  cas-not_worse : rank (health_check_cas sys cache_dir).status ≤ 1
  unfolding health_check_cas
  cas-not_worse = ground arith

  memory-not_worse : (h : SystemHealth) → rank (health_check_memory sys cache_dir h).1.status ≤ 1
  unfolding health_check_memory
  memory-not_worse h = ground arith

  disk-known : (h : SystemHealth) → rank (health_check_disk sys cache_dir h).1.status ≤ 2
  unfolding health_check_disk
  disk-known h = ground arith

  disk_keeps :
      (h : SystemHealth)
      → ((health_check_disk sys cache_dir h).0.cache_health ≡ h.cache_health)
        × ((health_check_disk sys cache_dir h).0.cas_health ≡ h.cas_health)
  unfolding health_check_disk
  disk_keeps h = (ground arith, ground arith)

  memory_keeps :
      (h : SystemHealth)
      → ((health_check_memory sys cache_dir h).0.cache_health ≡ h.cache_health)
        × ((health_check_memory sys cache_dir h).0.cas_health ≡ h.cas_health)
        × ((health_check_memory sys cache_dir h).0.disk_health ≡ h.disk_health)
  unfolding health_check_memory
  memory_keeps h = (ground arith, ground arith, ground arith)

  critical-rank : (s : HealthStatus) → (s ≡ health_critical) ↔ (rank s ≡ 2)
  critical-rank health_ok = (λ h. absurd cc, λ h. absurd cc)
  critical-rank health_warning = (λ h. absurd cc, λ h. absurd cc)
  critical-rank health_critical = (λ h. refl, λ h. refl)
  critical-rank health_unknown = (λ h. absurd cc, λ h. absurd cc)

  -- The results that one round of checks leaves.
  abbrev disk_after : SystemHealth → SystemHealth × HealthCheckResult
  disk_after h = health_check_disk sys cache_dir (record h {
    cache_health = health_check_cache sys cache_dir;
    cas_health = health_check_cas sys cache_dir;
  })

  abbrev memory_after : SystemHealth → SystemHealth × HealthCheckResult
  memory_after h =
      health_check_memory sys cache_dir (record (disk_after h).0 { disk_health = (disk_after h).1 })

  health_check_all_results :
      (h : SystemHealth)
      → let s = health_check_all sys cache_dir h in
        (s.cache_health ≡ health_check_cache sys cache_dir)
        × (s.cas_health ≡ health_check_cas sys cache_dir)
        × (s.disk_health ≡ (disk_after h).1)
        × (s.memory_health ≡ (memory_after h).1)
  unfolding health_check_all
  health_check_all_results h =
      let disk = disk_keeps (record h {
        cache_health = health_check_cache sys cache_dir;
        cas_health = health_check_cas sys cache_dir;
      }) in
      let memory = memory_keeps (record (disk_after h).0 { disk_health = (disk_after h).1 }) in
      (memory.0 ∙ disk.0, memory.1 ∙ disk.1, memory.2, refl)

  worst_of_four :
      (a b c d : HealthStatus)
      → rank (
          raise sys cache_dir
            (raise sys cache_dir (raise sys cache_dir (raise sys cache_dir health_ok a) b) c)
            d)
        ≡ max (max (rank a) (rank b)) (max (rank c) (rank d))
  worst_of_four a b c d =
      let ra = raise sys cache_dir health_ok a in
      let rb = raise sys cache_dir ra b in
      let rc = raise sys cache_dir rb c in
      omega (arith, rank-raise health_ok a, rank-raise ra b, rank-raise rb c, rank-raise rc d)

  overall :
      (h : SystemHealth)
      → rank (health_check_all sys cache_dir h).overall_status
        ≡ max
            (max
              (rank (health_check_cache sys cache_dir).status)
              (rank (health_check_cas sys cache_dir).status))
            (max (rank (disk_after h).1.status) (rank (memory_after h).1.status))
  unfolding health_check_all
  overall h =
      worst_of_four (health_check_cache sys cache_dir).status
        (health_check_cas sys cache_dir).status (disk_after h).1.status (memory_after h).1.status

  -- After `health_check_all` the overall status is the worst of the four; it is never UNKNOWN, and
  -- it is CRITICAL if and only if the disk is: no other check can give that.
  pub health_check_all-rank :
      (h : SystemHealth)
      → let s = health_check_all sys cache_dir h in
        (rank s.overall_status
          ≡ max
              (max (rank s.cache_health.status) (rank s.cas_health.status))
              (max (rank s.disk_health.status) (rank s.memory_health.status)))
        × (rank s.overall_status ≤ 2)
        × ((s.overall_status ≡ health_critical) ↔ (s.disk_health.status ≡ health_critical))
  health_check_all-rank h =
      let s = health_check_all sys cache_dir h in
      let (cache, cas, disk, memory) = health_check_all_results h in
      let worst = overall h in
      let known = disk-known (record h {
        cache_health = health_check_cache sys cache_dir;
        cas_health = health_check_cas sys cache_dir;
      }) in
      let a = cache-not_worse in
      let b = cas-not_worse in
      let d = memory-not_worse (record (disk_after h).0 { disk_health = (disk_after h).1 }) in
      let same : rank s.disk_health.status ≡ rank (disk_after h).1.status =
        ap (λ r. rank r.status) disk in
      (
        rw (cache, cas, disk, memory) worst,
        omega arith,
        (
          λ e.
              (critical-rank s.disk_health.status).1
                (let two = (critical-rank s.overall_status).0 e in omega arith),
          λ e.
              (critical-rank s.overall_status).1
                (let two = (critical-rank s.disk_health.status).0 e in omega arith),
        ),
      )
