-- ===== src/Clearlog/Summary.antt =====
-- The summary of the folders: `summary`, and the arguments of the script (util/clearlog.py).
use wetland.Prelude.{
  ℕ, ◌+◌, ◌*◌, ◌/◌, ◌%◌, Bytes, codes, bytes_eq, bytes_eq_refl, concat, str, path_join, ltb,
  is_empty, List, [], ◌∷◌, ◌++◌, Option, none, some, map, ◌≡◌, refl, if◌then◌else◌,
}
use wetland.Clearlog.{Folder, clear}

-- A file as `os.walk` and `os.stat` show it, with its time as `time.strftime` prints it.
pub record File : Type 0 where
  pub name : Bytes
  pub time : Bytes
  pub st_size : ℕ

-- A folder of the walk.
pub record Visit : Type 0 where
  pub root : Bytes
  pub files : List File

-- '%.2f' rounds to the next hundredth, a tie to the even one; the quotient by 1024 is exact.
unfoldable pub hundredths : ℕ → ℕ
hundredths size =
    let q = size * 100 / 1024 in
    let r = size * 100 % 1024 in if ltb r 512 then q else if ltb 512 r then q + 1 else q + q % 2

abbrev two_digits : ℕ → Bytes
two_digits n = (n / 10 + 48) ∷ (n % 10 + 48) ∷ []

-- '%.2f' % (size/1024.0) below one kilobyte
unfoldable pub small_size : ℕ → Bytes
unfolding hundredths
small_size size = let h = hundredths size in str (h / 100) ++ (codes "." ++ two_digits (h % 100))

-- '\t%s %.2fkb \t%s\n' and '\t%s %dkb \t %s\n'
unfoldable pub file_line : File → Bytes
unfolding small_size
file_line f =
    if ltb f.st_size 1024
    then 9
      ∷ (f.time
          ++ (codes " " ++ (small_size f.st_size ++ (codes "kb \t" ++ (f.name ++ codes "\n")))))
    else 9
      ∷ (f.time
          ++ (codes " " ++ (str (f.st_size / 1024) ++ (codes "kb \t " ++ (f.name ++ codes "\n")))))

-- What is written for one folder.
unfoldable pub visit_text : Bytes → Visit → Bytes
unfolding file_line
visit_text logs_path v =
    if bytes_eq v.root logs_path
    then []
    else v.root ++ (codes "\n" ++ concat (map file_line v.files))

-- What summary.txt then holds.
unfoldable pub summary : Bytes → List Visit → Bytes
unfolding visit_text
summary logs_path [] = []
summary logs_path (v ∷ walk) = visit_text logs_path v ++ summary logs_path walk

unfoldable pub summary_path : Bytes → Bytes
summary_path logs_path = path_join logs_path (codes "summary.txt")

-- Lines 55 and 56: the option -l, which may be missing or empty.
unfoldable pub pwd_file : Bytes → Option Bytes → Bytes
pwd_file p none = path_join p (codes "pwd.txt")
pwd_file p (some l) = if is_empty l then path_join p (codes "pwd.txt") else l

-- What the script writes: the file of passwords with the text appended to it, the summary with its
-- text, and the folders that are left. The walk is that of the folders after `clear`.
pub record Written : Type 0 where
  pub pwd : Bytes
  pub passwords : Bytes
  pub summary_file : Bytes
  pub summary_text : Bytes
  pub kept : List Folder

unfoldable pub run_script :
    Bytes → Option Bytes → List Folder → (List Folder → List Visit) → Written
unfolding pwd_file clear summary summary_path
run_script p l folders walk =
    let r = clear folders in
    record {
      pwd = pwd_file p l;
      passwords = r.0;
      summary_file = summary_path p;
      summary_text = summary p (walk r.1);
      kept = r.1;
    }

-- The walk starts with the folder of all logs, whose own files, the summary among them, are left
-- out; what is written is about the folders below it.
pub summary-root :
    (logs_path : Bytes) (files : List File) (walk : List Visit)
    → summary logs_path (record { root = logs_path; files = files } ∷ walk) ≡ summary logs_path walk
unfolding summary
summary-root logs_path files walk = rw (bytes_eq_refl logs_path) refl
