-- ===== src/Upgrade/Install/Laws.antt =====
-- What an upgrade leaves on the disk.
use uptp.Common.{
  ℕ, ◌≡◌, ◌↔◌, ◌⊎◌, inl, inr, refl, ap, ◌∙◌, arith, Bool, true, false, Option, none, some, List,
  gives, Answer-cases, Bool-cases, ◌!=◌, nat_eq,
}
use uptp.Common.Int.{int_eq}
use uptp.Upgrade.Version.{compare_version, less}
use uptp.Upgrade.Install.{
  old_program, new_program, File, Disk, LatestInfo, Answers, replace, install, upgrade_myself,
}

-- A program that the system can start.
abbrev pub runs : Option File → Bool
runs none = false
runs (some f) = elim f.content [
  | old_program ↦ f.executable
  | new_program ↦ f.executable
  | _ ↦ false
]

module _ (current : List ℕ) (a : Answers) where
  -- A newer version was announced and downloaded, and the old program was moved away.
  pub record IsMoved : Type 0 where
    pub info : LatestInfo
    pub queried : a.query ≡ gives info
    pub newer : compare_version current info.version ≡ less
    pub downloaded : a.download ≡ gives 200
    pub stored : (a.create_temp ≡ none) × (a.copy_body ≡ none)
    pub moved : (a.executable ≡ none) × (a.rename ≡ none)

  -- The downloaded program was put in the old one's place.
  abbrev pub IsReplaced : Type 0
  IsReplaced =
      (a.open_download ≡ none)
      × ((a.create_target ≡ none) × ((a.copy_file ≡ none) × (a.chmod ≡ none)))

  held : Disk → Disk
  held disk = record {
    bin = none;
    bak = disk.bin;
    tmp = some (record { content = new_program; executable = false });
  }

  moved_step : (disk : Disk) → IsMoved → upgrade_myself current a disk ≡ replace a (held disk)
  unfolding upgrade_myself install held
  moved_step disk m = ground (arith, m.queried, m.newer, m.downloaded, m.stored, m.moved)

  install_stays :
      (disk : Disk)
      → ((install a disk).1.bin ≡ disk.bin) × ((install a disk).1.bak ≡ disk.bak)
        ⊎ (((a.create_temp ≡ none) × (a.copy_body ≡ none))
            × ((a.executable ≡ none) × (a.rename ≡ none)))
  unfolding install
  install_stays disk = ground arith

  stays_or_moves :
      (disk : Disk)
      → (((upgrade_myself current a disk).1.bin ≡ disk.bin)
          × ((upgrade_myself current a disk).1.bak ≡ disk.bak))
        ⊎ IsMoved
  unfolding upgrade_myself
  stays_or_moves disk = elim (Answer-cases a.query) [
    | inr (e, q) ↦ inl (ground (arith, q))
    | inl (info, q) ↦ elim (Bool-cases (compare_version current info.version != less)) [
      | inl b ↦ inl (ground (arith, q, b))
      | inr b ↦ elim (Answer-cases a.download) [
        | inr (e, d) ↦ inl (ground (arith, q, b, d))
        | inl (status, d) ↦ elim (Bool-cases (status != 200)) [
          | inl c ↦ inl (ground (arith, q, b, d, c))
          | inr c ↦ elim (install_stays disk) [
            | inl s ↦ inl (ground (arith, q, b, d, c, s))
            | inr (s, m) ↦ inr (record {
              info = info;
              queried = q;
              newer = ground (arith, b);
              downloaded = ground (arith, c, d);
              stored = s;
              moved = m;
            })
          ]
        ]
      ]
    ]
  ]

  replace_bak : (disk : Disk) → (replace a disk).1.bak ≡ disk.bak
  unfolding replace
  replace_bak disk = ground arith

  runs-replace_iff :
      (disk : Disk) → disk.bin ≡ none → (runs (replace a disk).1.bin ≡ true) ↔ IsReplaced
  unfolding replace
  runs-replace_iff disk e = ground (arith, e)

  -- Whatever fails, the program that was installed is still in its place or under the name ".bak".
  pub upgrade_myself_keeps :
      (disk : Disk)
      → ((upgrade_myself current a disk).1.bin ≡ disk.bin)
        ⊎ ((upgrade_myself current a disk).1.bak ≡ disk.bin)
  unfolding held
  upgrade_myself_keeps disk = elim (stays_or_moves disk) [
    | inl s ↦ inl s.0
    | inr m ↦ inr (ap (λ x. x.1.bak) (moved_step disk m) ∙ replace_bak (held disk))
  ]

  moved_runs_iff :
      (disk : Disk) → IsMoved → (runs (upgrade_myself current a disk).1.bin ≡ true) ↔ IsReplaced
  unfolding held
  moved_runs_iff disk m = rw (moved_step disk m) (runs-replace_iff (held disk) refl)

  -- Where a program stood that the system can start, the path of the executable is left without one
  -- exactly if a newer version was downloaded and the old program moved away, and one of the four
  -- last steps failed.
  pub upgrade_myself_breaks_iff :
      (disk : Disk)
      → runs disk.bin ≡ true
      → (runs (upgrade_myself current a disk).1.bin ≡ false) ↔ (IsMoved × (IsReplaced → ⊥))
  upgrade_myself_breaks_iff disk h = (
    λ f. elim (stays_or_moves disk) [
      | inl s ↦ absurd (cc (ap runs s.0, h, f))
      | inr m ↦ (m, λ r. cc ((moved_runs_iff disk m).1 r, f))
    ],
    λ (m, n). elim (Bool-cases (runs (upgrade_myself current a disk).1.bin)) [
      | inl b ↦ absurd (n ((moved_runs_iff disk m).0 b))
      | inr b ↦ b
    ],
  )
