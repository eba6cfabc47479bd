-- ===== src/Pages.antt =====
-- Lists by pages: src/shared/dto/paginated-response.dto.ts, and what the use cases that answer with it
-- share. The query's DTO keeps the page and the limit at 1 or more.
pub mod Shape
use base_api_nest_js.Base.{ℕ, ◌+◌, ◌-◌, ◌*◌, ◌/◌, List}
use base_api_nest_js.Prisma.{Prisma}

pub record PaginationMeta : Type 0 where
  pub page : ℕ
  pub limit : ℕ
  pub total : ℕ
  pub total_pages : ℕ

pub record PaginatedResponse (A : Type 0) : Type 0 where
  pub items : List A
  pub meta : PaginationMeta

-- FindManyResult, FindAuditLogsResult
pub record FindManyResult (A : Type 0) : Type 0 where
  pub items : List A
  pub total : ℕ

-- `Math.ceil(total / limit)`
unfoldable pub total_pages : ℕ → ℕ → ℕ
total_pages total limit = (total + limit - 1) / limit

-- `(params.page - 1) * params.limit`
unfoldable pub skip_of : ℕ → ℕ → ℕ
skip_of page limit = (page - 1) * limit

unfoldable pub meta_of : ℕ → ℕ → ℕ → PaginationMeta
unfolding total_pages
meta_of page limit total = record {
  page = page;
  limit = limit;
  total = total;
  total_pages = total_pages total limit;
}
