-- ===== src/Etl/Report/Workbook.antt =====
-- `exportToExcel`: the workbook with its two sheets, and the steps that make and save it. The
-- spreadsheet library, the file system and `filepath.Dir`, which depends on the platform, are
-- arguments; the styles other than the fill of a row, and the widths of the columns, are left out.
use kms_golang.Base.{
  ℕ, zero, suc, Bytes, List, [], ◌∷◌, Bool, not, ◌&&◌, ltb, if◌then◌else◌, some, ok, codes,
  bytes_eq, some_injective, String, length, get_elem?, map, ◌≡◌, refl, ap,
}
use kms_golang.Go.World.{World, M, return, wrapping, ◌>>◌, >>-eq-ok, wrapping-eq-ok}
use kms_golang.Etl.{VerificationRecord}
use kms_golang.Etl.Matches.{Summary, summary}
use kms_golang.Etl.Report.{Cell, number, text, rate, Colour, row_colour, row_cells}

-- A row of a sheet: its cells from column A on, and its fill.
pub record SheetRow : Type 0 where
  pub cells : List Cell
  pub fill : Colour

pub record Workbook : Type 0 where
  pub results : List SheetRow
  pub summary_sheet : List (List Cell)

abbrev pub headers : List Bytes
headers =
    codes "Source ID"
    ∷ codes "Original PAN"
    ∷ codes "Encrypted PAN"
    ∷ codes "Decrypted PAN"
    ∷ codes "PAN Match"
    ∷ codes "PAN Error"
    ∷ codes "Original CVV"
    ∷ codes "Encrypted CVV"
    ∷ codes "Decrypted CVV"
    ∷ codes "CVV Match"
    ∷ codes "CVV Error"
    ∷ codes "Other Data"
    ∷ []

abbrev pub result_row : Bool → VerificationRecord → SheetRow
result_row mask_data v = record { cells = row_cells mask_data v; fill = row_colour v }

-- B7 stays empty where there is no record.
abbrev success_rate : Summary → List Cell
success_rate s =
    text (codes "Success Rate")
    ∷ (if ltb 0 s.total then rate s.perfect_matches s.total ∷ [] else [])

abbrev summary_rows : Summary → List (List Cell)
summary_rows s =
    (text (codes "Verification Summary") ∷ [])
    ∷ (text (codes "Total Records") ∷ number s.total ∷ [])
    ∷ (text (codes "Perfect Matches") ∷ number s.perfect_matches ∷ [])
    ∷ (text (codes "PAN Matches") ∷ number s.pan_matches ∷ [])
    ∷ (text (codes "CVV Matches") ∷ number s.cvv_matches ∷ [])
    ∷ (text (codes "Errors/Mismatches") ∷ number s.errors ∷ [])
    ∷ success_rate s
    ∷ []

unfoldable pub workbook : Bool → List VerificationRecord → Workbook
unfolding row_cells row_colour summary
workbook mask_data results = record {
  results =
      (record { cells = map text headers; fill = Colour.unfilled })
      ∷ map (result_row mask_data) results;
  summary_sheet = summary_rows (summary results);
}

-- `excelize` and `os`.
pub record Office (D : Type 0) : Type 0 where
  pub new_sheet : Bytes → M D (Unit {0})
  pub dir : Bytes → Bytes
  pub mkdir_all : Bytes → M D (Unit {0})
  pub save_as : Workbook → Bytes → M D (Unit {0})

module _ {D : Type 0} (office : Office D) where
  ensure_dir : Bytes → M D (Unit {0})
  ensure_dir dir =
      if not (bytes_eq dir (codes ".")) && not (bytes_eq dir [])
      then wrapping "failed to create directory for Excel file: " (office.mkdir_all dir)
      else return (ok tt)

  abbrev save : List VerificationRecord → Bytes → Bool → M D (Unit {0})
  save results path mask_data =
      wrapping "failed to save Excel file: " (office.save_as (workbook mask_data results) path)

  abbrev add_sheet : String → String → M D (Unit {0})
  add_sheet prefix name = wrapping prefix (office.new_sheet (codes name))

  unfoldable pub export_to_excel : List VerificationRecord → Bytes → Bool → M D (Unit {0})
  unfolding ensure_dir
  export_to_excel results path mask_data =
      add_sheet "failed to create sheet: " "Verification Results"
      >> (add_sheet "failed to create summary sheet: " "Summary"
          >> (ensure_dir (office.dir path) >> save results path mask_data))

  -- An export that succeeds has saved the workbook of the results under the path, as its last step.
  pub export_to_excel_saves :
      (results : List VerificationRecord) (path : Bytes) (mask_data : Bool) (w w' : World D)
      → export_to_excel results path mask_data w ≡ (ok tt, w')
      → (before : World D) × (office.save_as (workbook mask_data results) path before ≡ (ok tt, w'))
  unfolding export_to_excel
  export_to_excel_saves results path mask_data w w' h =
      let last = save results path mask_data in
      let from_dir = ensure_dir (office.dir path) >> last in
      let summary_step = add_sheet "failed to create summary sheet: " "Summary" in
      let (w1, h1) =
        >>-eq-ok (add_sheet "failed to create sheet: " "Verification Results")
          (summary_step >> from_dir) w h in
      let (w2, h2) = >>-eq-ok summary_step from_dir w1 h1 in
      let (w3, h3) = >>-eq-ok (ensure_dir (office.dir path)) last w2 h2 in
      (
        w3,
        wrapping-eq-ok "failed to save Excel file: "
            (office.save_as (workbook mask_data results) path) w3 h3,
      )

map-result_row :
    (mask_data : Bool) (results : List VerificationRecord) (i : ℕ) (v : VerificationRecord)
    → get_elem? results i ≡ some v
    → get_elem? (map (result_row mask_data) results) i ≡ some (result_row mask_data v)
map-result_row mask_data [] i v h = cc h
map-result_row mask_data (x ∷ results) zero v h =
    ap (λ y. some (result_row mask_data y)) (some_injective h)
map-result_row mask_data (x ∷ results) (suc i) v h = map-result_row mask_data results i v h

-- Each row of the workbook has one cell for each header, and the row after the header's for the
-- i-th result shows that result.
pub workbook_rows :
    (mask_data : Bool) (results : List VerificationRecord) (i : ℕ) (v : VerificationRecord)
    → get_elem? results i ≡ some v
    → (row : SheetRow) × (get_elem? (workbook mask_data results).results (suc i) ≡ some row)
      × (row.cells ≡ row_cells mask_data v)
      × (row.fill ≡ row_colour v)
      × (length row.cells ≡ length headers)
unfolding workbook row_cells
workbook_rows mask_data results i v h =
    (result_row mask_data v, map-result_row mask_data results i v h, refl, refl, refl)
