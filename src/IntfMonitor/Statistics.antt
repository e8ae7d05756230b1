-- ===== src/IntfMonitor/Statistics.antt =====
-- Assignments/A1/intfMonitor.cpp, the reading of the interface's files.
use dps912_unix.Base.{
  ==_of_ne, ==_refl, All, Bytes, List, Option, [], ap, codes, if◌then◌else◌, none, refl, some,
  string_eq, ◌++◌, ◌∙◌, ◌∷◌, ◌≡◌, ◌≢◌,
}
use dps912_unix.IntfMonitor.{gather, read_stat, remove_newlines, stats_path, Stats}

abbrev pub OneLine : Bytes → Type 0
OneLine = All λ c. c ≢ 10

-- The kernel's files: one line each.
remove_newlines-line : (value : Bytes) → OneLine value → remove_newlines (value ++ 10 ∷ []) ≡ value
unfolding remove_newlines
remove_newlines-line [] h = refl
remove_newlines-line (c ∷ value) h = rw (==_of_ne c 10 h.0, remove_newlines-line value h.1)

-- The directory of an interface as a table of names and values.
pub table : Stats → List (Bytes × Bytes)
table t =
    (codes "/operstate", t.operstate)
    ∷ (codes "/carrier_up_count", t.carrier_up_count)
    ∷ (codes "/carrier_down_count", t.carrier_down_count)
    ∷ (codes "/statistics/rx_bytes", t.rx_bytes)
    ∷ (codes "/statistics/rx_dropped", t.rx_dropped)
    ∷ (codes "/statistics/rx_errors", t.rx_errors)
    ∷ (codes "/statistics/rx_packets", t.rx_packets)
    ∷ (codes "/statistics/tx_bytes", t.tx_bytes)
    ∷ (codes "/statistics/tx_dropped", t.tx_dropped)
    ∷ (codes "/statistics/tx_errors", t.tx_errors)
    ∷ (codes "/statistics/tx_packets", t.tx_packets)
    ∷ []

-- A file system that holds the table below a directory, each value with a newline.
pub files_of : Bytes → List (Bytes × Bytes) → Bytes → Option Bytes
files_of directory [] path = none
files_of directory ((name, value) ∷ rest) path =
    if string_eq path (directory ++ name)
    then some (value ++ 10 ∷ [])
    else files_of directory rest path

string_eq-append : (front s t : Bytes) → string_eq (front ++ s) (front ++ t) ≡ string_eq s t
unfolding string_eq
string_eq-append [] s t = refl
string_eq-append (c ∷ front) s t = rw (==_refl c, string_eq-append front s t)

value_of : Bytes → List (Bytes × Bytes) → Option Bytes
value_of name [] = none
value_of name ((other, value) ∷ rest) =
    if string_eq name other then some (value ++ 10 ∷ []) else value_of name rest

files_of-append :
    (directory name : Bytes) (entries : List (Bytes × Bytes))
    → files_of directory entries (directory ++ name) ≡ value_of name entries
unfolding files_of value_of
files_of-append directory name [] = refl
files_of-append directory name ((other, value) ∷ rest) =
    rw (string_eq-append directory name other, files_of-append directory name rest)

read_line : (value : Bytes) → OneLine value → read_stat (some (value ++ 10 ∷ [])) ≡ value
unfolding read_stat
read_line value h = remove_newlines-line value h

-- Each value is one line.
pub record IsClean (t : Stats) : Type 0 where
  pub clean_operstate : OneLine t.operstate
  pub clean_carrier_up : OneLine t.carrier_up_count
  pub clean_carrier_down : OneLine t.carrier_down_count
  pub clean_rx_bytes : OneLine t.rx_bytes
  pub clean_rx_dropped : OneLine t.rx_dropped
  pub clean_rx_errors : OneLine t.rx_errors
  pub clean_rx_packets : OneLine t.rx_packets
  pub clean_tx_bytes : OneLine t.tx_bytes
  pub clean_tx_dropped : OneLine t.tx_dropped
  pub clean_tx_errors : OneLine t.tx_errors
  pub clean_tx_packets : OneLine t.tx_packets

module _ (t : Stats) (folders : Bytes) where
  directory : Bytes
  directory = stats_path ++ b'/' ∷ folders

  entry :
      (name value : Bytes)
      → value_of name (table t) ≡ some (value ++ 10 ∷ [])
      → OneLine value
      → read_stat (files_of directory (table t) (directory ++ name)) ≡ value
  entry name value h line =
      ap read_stat (files_of-append directory name (table t) ∙ h) ∙ read_line value line

  -- If the files of an interface hold one line each, what the monitor holds after a pass over them is
  -- their values: none is lost, swapped or left with its newline.
  pub gather-files_of :
      IsClean t → gather (files_of (stats_path ++ b'/' ∷ folders) (table t)) folders ≡ t
  unfolding gather value_of table string_eq directory
  gather-files_of c = λ i. record {
    operstate = entry (codes "/operstate") t.operstate refl c.clean_operstate i;
    carrier_up_count =
        entry (codes "/carrier_up_count") t.carrier_up_count refl c.clean_carrier_up i;
    carrier_down_count =
        entry (codes "/carrier_down_count") t.carrier_down_count refl c.clean_carrier_down i;
    rx_bytes = entry (codes "/statistics/rx_bytes") t.rx_bytes refl c.clean_rx_bytes i;
    rx_dropped = entry (codes "/statistics/rx_dropped") t.rx_dropped refl c.clean_rx_dropped i;
    rx_errors = entry (codes "/statistics/rx_errors") t.rx_errors refl c.clean_rx_errors i;
    rx_packets = entry (codes "/statistics/rx_packets") t.rx_packets refl c.clean_rx_packets i;
    tx_bytes = entry (codes "/statistics/tx_bytes") t.tx_bytes refl c.clean_tx_bytes i;
    tx_dropped = entry (codes "/statistics/tx_dropped") t.tx_dropped refl c.clean_tx_dropped i;
    tx_errors = entry (codes "/statistics/tx_errors") t.tx_errors refl c.clean_tx_errors i;
    tx_packets = entry (codes "/statistics/tx_packets") t.tx_packets refl c.clean_tx_packets i;
  }
