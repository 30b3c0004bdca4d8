-- ===== src/Pagination/Tests.antt =====
-- Runs for pages.
use ecommerce_rest_api.Base.{◌≡◌, refl}
use ecommerce_rest_api.Pagination.{Pagination, PaginationDefaults, number, build_pagination}

abbrev plain : PaginationDefaults
plain = record { limit = 0; max_limit = 0 }

abbrev third_page : Pagination
unfolding build_pagination
third_page = build_pagination (number 3) (number 500) plain

third : (third_page.page ≡ 3) × (third_page.limit ≡ 100) × (third_page.skip ≡ 200)
unfolding third_page build_pagination
third = (refl, refl, refl)
