-- ===== src/Interviewer.antt =====
-- frontend/app/interviewer/page.tsx with the services that it drives, frontend/lib/copilot/services:
-- speechService.js, aiService.js and what liveApiService.js does with an answer.
pub mod Types
pub mod Speakers
pub mod Page
pub mod Visits
pub mod Backend
pub mod Panels
pub mod Report
