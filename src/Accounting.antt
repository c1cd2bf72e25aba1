-- ===== src/Accounting.antt =====
-- Category suggestions: api/internal/accounting/suggestion.go.
pub mod Suggestion
pub mod Books
