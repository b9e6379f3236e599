-- ===== src/Persister/Disk.antt =====
-- What a custom file does to the disk. The laws of the file system are parameters: files are read
-- back as they were written, and making a directory leaves the files alone.
use protoc_gen_star.Persister.Runs.{bind-eq-ok, ok-injective}
use protoc_gen_star.Base.{
  Text, ℕ, ◌≡◌, sym, ap, ◌∙◌, ◌≢◌, Bool, true, false, not, ◌&&◌, Option, none, some,
}
use protoc_gen_star.FilePath.{dir}
use protoc_gen_star.Artifact.{Error, io_failed, ok}
use protoc_gen_star.Persister.{FileSystem, check_err, write_unless, write_artifact}

-- What afero documents of the calls that the persister makes.
pub record DiskLaws (fs : FileSystem) : Type 0 where
  pub read : Text → fs.Disk → Option Text
  pub mkdir-read :
      (path : Text) (perms : ℕ) (d d' : fs.Disk)
      → fs.mkdir_all path perms d ≡ some d'
      → (n : Text) → read n d' ≡ read n d
  pub exists-read :
      (n : Text) (d : fs.Disk) (s : Text) (b : Bool)
      → read n d ≡ some s
      → fs.exists n d ≡ some b
      → b ≡ true
  pub write-read :
      (n s : Text) (perms : ℕ) (d d' : fs.Disk)
      → fs.write_file n s perms d ≡ some d'
      → read n d' ≡ some s
  pub write-read_ne :
      (n s : Text) (perms : ℕ) (d d' : fs.Disk)
      → fs.write_file n s perms d ≡ some d'
      → (m : Text) → m ≢ n
      → read m d' ≡ read m d

check_err-eq-ok {ℓ} :
    {A : Type ℓ} (o : Option A) (e : Error) {a : A} → check_err o e ≡ ok a → o ≡ some a
check_err-eq-ok none e h = absurd (cc)
check_err-eq-ok (some a) e h = ap some (ok-injective h)

module _ (fs : FileSystem) (laws : DiskLaws fs) where
  -- The three calls of `writeFile`, and what they answered.
  record Written (name content : Text) (overwrite : Bool) (perms : ℕ) (d d' : fs.Disk)
      : Type 0 where
    made : fs.Disk
    found : Bool
    mkdir : fs.mkdir_all (dir name) 0o755 d ≡ some made
    looked : fs.exists name made ≡ some found
    ends : write_unless fs (found && not overwrite) name content perms made ≡ ok d'

  Written-of :
      (name content : Text) (overwrite : Bool) (perms : ℕ) (d d' : fs.Disk)
      → write_artifact fs name content overwrite perms d ≡ ok d'
      → Written name content overwrite perms d d'
  unfolding write_artifact
  Written-of name content overwrite perms d d' h =
      let (d₁, e, h₁) = bind-eq-ok (check_err (fs.mkdir_all (dir name) 0o755 d) io_failed) _ h in
      let (b, e', h₂) = bind-eq-ok (check_err (fs.exists name d₁) io_failed) _ h₁ in
      record {
        made = d₁;
        found = b;
        mkdir = check_err-eq-ok _ io_failed e;
        looked = check_err-eq-ok _ io_failed e';
        ends = h₂;
      }

  -- On a file system with the laws of `DiskLaws`: if a file is there and the write that is not to
  -- overwrite ends without error, this file and every other one keep their contents.
  pub write_artifact_keeps :
      (name content old : Text) (perms : ℕ) (d d' : fs.Disk)
      → laws.read name d ≡ some old
      → write_artifact fs name content false perms d ≡ ok d'
      → (n : Text) → laws.read n d' ≡ laws.read n d
  write_artifact_keeps name content old perms d d' r h n =
      let w = Written-of name content false perms d d' h in
      let there = laws.mkdir-read _ _ d w.made w.mkdir in
      let found = laws.exists-read name w.made old w.found (there name ∙ r) w.looked in
      let same : w.made ≡ d' = ok-injective (rw found at w.ends) in
      ap (laws.read n) (sym same) ∙ there n

  -- On a file system with the laws of `DiskLaws`: if the write that is to overwrite ends without
  -- error, the file has the new content, and no other file changes.
  pub write_artifact_overwrites :
      (name content : Text) (perms : ℕ) (d d' : fs.Disk)
      → write_artifact fs name content true perms d ≡ ok d'
      → (laws.read name d' ≡ some content)
        × ((n : Text) → n ≢ name → laws.read n d' ≡ laws.read n d)
  write_artifact_overwrites name content perms d d' h =
      let w = Written-of name content true perms d d' h in
      let wrote =
        check_err-eq-ok (fs.write_file name content perms w.made) io_failed
          (both w.made w.found w.ends) in
      (
        laws.write-read name content perms w.made d' wrote,
        λ n other.
            laws.write-read_ne name content perms w.made d' wrote n other
            ∙ laws.mkdir-read _ _ d w.made w.mkdir n,
      )
    where
      both :
          (made : fs.Disk) (found : Bool)
          → write_unless fs (found && not true) name content perms made ≡ ok d'
          → check_err (fs.write_file name content perms made) io_failed ≡ ok d'
      both made true e = e
      both made false e = e
