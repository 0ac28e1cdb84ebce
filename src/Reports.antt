-- ===== src/Reports.antt =====
-- worker/reporting: the JSON text of the report and the CSV file of the errors.
pub mod Json
pub mod Csv
