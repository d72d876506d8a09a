-- ===== src/Publication/Recover/Laws.antt =====
-- What `recover_publication` leaves served, by what it finds.
use deployment.Base.{
  ◌≡◌, ◌⊎◌, refl, ap, ◌∙◌, inl, inr, true, [], Option, none, some, ◌&&◌, arith, Bool-cases, ◌==◌,
  option_eq, list_eq, nat_eq, string_eq, length, leb,
}
use deployment.Publication.Disk.{Bytes, File, bytes, contents, Disk}
use deployment.Publication.Act.{attempt}
use deployment.Publication.Journal.{
  Codec, IsLawful, admit_publication_record, read_record, stage, max_config_bytes,
}
use deployment.Publication.Publish.{unlink_journal}
use deployment.Publication.Recover.{restore_predecessor, recover_publication}
use deployment.Publication.Safe.{IsRecord}

-- What a recovery finds served.
abbrev pub served_after : Codec → Disk → Option File
served_after C d = (recover_publication C d []).1.serving.now

module _ (C : Codec) where
  -- Without a journal nothing is done.
  pub recover-idle : (d : Disk) → d.journal.now ≡ none → served_after C d ≡ d.serving.now
  unfolding recover_publication
  recover-idle d e = ground arith

  pub recover-first :
      (law : IsLawful C) (data' : Bytes) (d : Disk)
      → IsRecord C none data' d.journal.now
      → served_after C d ≡ none
  unfolding recover_publication read_record admit_publication_record restore_predecessor attempt
      unlink_journal
  recover-first law data' d e =
      ground (arith, e, law.round_trip none data', law.digest_format data', law.short none data')

  -- A backup with the digest of the predecessor is served.
  pub recover-backup :
      (law : IsLawful C) (b data' x : Bytes) (d : Disk)
      → leb (length x) max_config_bytes ≡ true
      → C.digest x ≡ C.digest b
      → IsRecord C (some b) data' d.journal.now
      → contents d.backup.now ≡ some x
      → served_after C d ≡ some (bytes x)
  unfolding recover_publication read_record admit_publication_record restore_predecessor stage
      attempt unlink_journal
  recover-backup law b data' x d fits same e f = ground (
    arith,
    e,
    f,
    law.round_trip (some b) data',
    law.digest_format data',
    law.digest_format b,
    law.short (some b) data',
  )

  matches_of :
      (x b : Bytes)
      → (leb (length x) max_config_bytes && C.digest x == C.digest b) ≡ true
      → (leb (length x) max_config_bytes ≡ true) × (C.digest x ≡ C.digest b)
  matches_of x b h = (ground arith, ground arith)

  -- From any other backup it is put back or nothing changes.
  pub recover-any :
      (law : IsLawful C) (b data' : Bytes) (d : Disk)
      → ((x : Bytes) → contents d.backup.now ≡ some x → C.digest x ≡ C.digest b → x ≡ b)
      → IsRecord C (some b) data' d.journal.now
      → (served_after C d ≡ some (bytes b)) ⊎ (served_after C d ≡ d.serving.now)
  unfolding recover_publication read_record admit_publication_record restore_predecessor stage
      attempt unlink_journal
  recover-any law b data' d unique e = by_backup (contents d.backup.now) refl
    where
      by_backup :
          (f : Option Bytes)
          → contents d.backup.now ≡ f
          → (served_after C d ≡ some (bytes b)) ⊎ (served_after C d ≡ d.serving.now)
      by_backup none h = inr (
          ground (
            arith,
            e,
            h,
            law.round_trip (some b) data',
            law.digest_format data',
            law.digest_format b,
            law.short (some b) data',
          ))
      by_backup (some x) h =
          elim (Bool-cases (leb (length x) max_config_bytes && C.digest x == C.digest b)) [
            | inl good ↦
                let (fits, same) = matches_of x b good in
                inl (
                  recover-backup law b data' x d fits same e h
                  ∙ ap (λ z. some (bytes z)) (unique x h same))
            | inr bad ↦ inr (
                ground (
                  arith,
                  e,
                  h,
                  bad,
                  law.round_trip (some b) data',
                  law.digest_format data',
                  law.digest_format b,
                  law.short (some b) data',
                ))
          ]
